-- ===== src/ClusterAutoscaling/Downscale/Modest.antt =====
-- What downscale_spot_fleet_request asks of AWS.
use paasta.Prelude.{
  ℕ, zero, suc, nat_eq, ◌*◌, ◌≤◌, ◌<◌, ◌≡◌, refl, sym, ap, ◌∙◌, ◌⊎◌, inl, inr, nat_beq, ℤ, pos,
  negsuc, minus, Text, text_eq, ◌==◌, Bool, true, false, ◌&&◌, not, List, [], ◌∷◌, ◌++◌, map,
  all_of, all_of-sort_by, contains, contains-head, or_right, and_parts, http_error,
  fail_set_spot_capacity, Result, ok, raise, ok_injective, >>=-eq-ok, sort_by, Bool-cases, arith,
}
use mathlib.Core.List.{reverse, reverse-cons}
use native.Mathlib.Nat.{le-div_iff_mul-le}
use paasta.Effects.{>>=-eq-ok as action->>=-eq-ok, Act, Oracle}
use paasta.Effects.Confined.{Confined, Confined-result, Confined-if, Confined-bind}
use paasta.Metastatus.{Slave}
use paasta.ClusterAutoscaling.{Resource, Sfr}
use paasta.ClusterAutoscaling.Slaves.{
  Candidate, RunningTask, kill_first, sort_slaves_to_kill, task_count_by_slave,
}
use paasta.ClusterAutoscaling.Downscale.Calls.{Confined-ask, gracefully_terminate_slave-Confined}
use paasta.ClusterAutoscaling.Downscale.{
  Call, after_attempt, ask, attempt, downscale_spot_fleet_request, float, floor_div, is_below,
  modify_request, recounted, state_summary, terminate, terminate_ids, whole,
}

abbrev pub AtLeast : ℕ → ℤ → Type 0
AtLeast target (pos n) = target ≤ n
AtLeast target (negsuc n) = ⊥

floor_div-AtLeast :
    (unit : ℕ) (c : ℤ) (target : ℕ)
    → 0 < unit
    → is_below unit c target ≡ false
    → AtLeast target (floor_div c unit)
floor_div-AtLeast unit (pos a) target h e = (le-div_iff_mul-le h).1 (ground arith)
floor_div-AtLeast unit (negsuc a) target h e = cc

is_below-minus :
    (unit : ℕ) (c : ℤ) (w target : ℕ)
    → is_below unit (minus c w) target ≡ false
    → is_below unit c target ≡ false
is_below-minus unit (pos a) w target e = ground arith
is_below-minus unit (negsuc a) w target e = cc

-- What a call of a downscale may be: `ids` and `weights` are those of its candidates, `before` is the
-- capacity at the start.
abbrev pub Spares : (unit target before : ℕ) (ids : List Text) (weights : List ℕ) → Call → Type 0
Spares unit target before ids weights (terminate id dry) = contains ids id ≡ true
Spares unit target before ids weights (terminate_ids id dry) = contains ids id ≡ true
Spares unit target before ids weights (modify_request id (whole c)) =
    AtLeast target c
    ⊎ ((w : ℕ) × (contains weights w ≡ true) × (c ≡ floor_div (minus (pos before) w) unit))
Spares unit target before ids weights (modify_request id (float c)) = is_below unit c target ≡ false
Spares unit target before ids weights _ = Unit {0}

abbrev pub ids_of : List Candidate → List Text
ids_of slaves = map (λ (s : Candidate). s.instance_id) slaves

abbrev pub weights_of : List Candidate → List ℕ
weights_of slaves = map (λ (s : Candidate). s.instance_weight) slaves

-- The candidate is one of those at the start, but for its counts.
abbrev known : List Text → List ℕ → Candidate → Bool
known ids weights s = contains ids s.instance_id && contains weights s.instance_weight

all_of-append {ℓ} :
    {A : Type ℓ} (p : A → Bool) (xs ys : List A)
    → all_of p (xs ++ ys) ≡ (all_of p xs && all_of p ys)
all_of-append p [] ys = refl
all_of-append p (x ∷ xs) ys = rw (all_of-append p xs ys) (assoc (p x) (all_of p xs) (all_of p ys))
  where
    assoc : (a b c : Bool) → (a && (b && c)) ≡ ((a && b) && c)
    assoc a b c = ground arith

all_of-reverse {ℓ} :
    {A : Type ℓ} (p : A → Bool) (xs : List A) → all_of p xs ≡ true → all_of p (reverse xs) ≡ true
all_of-reverse p [] h = refl
all_of-reverse p (x ∷ xs) h =
    let (here, rest) = and_parts (p x) _ h in
    rw (reverse-cons, all_of-append p (reverse xs) (x ∷ []), all_of-reverse p xs rest, here) refl

task_count-known :
    (ids : List Text) (weights : List ℕ) (mesos_slaves : List Text) (tasks : List RunningTask)
    (slaves counted : List Candidate)
    → all_of (known ids weights) slaves ≡ true
    → task_count_by_slave mesos_slaves tasks slaves ≡ ok counted
    → all_of (known ids weights) counted ≡ true
unfolding task_count_by_slave
task_count-known ids weights ms tasks [] counted h e = ap (all_of _) (sym (ok_injective e))
task_count-known ids weights ms tasks (s ∷ slaves) counted h e =
    let (here, rest) = and_parts (known ids weights s) _ h in
    elim (Bool-cases (contains ms s.id)) [
      | inr gone ↦ cc (rw gone at e)
      | inl there ↦
          let (more, found, joined) =
            >>=-eq-ok (task_count_by_slave ms tasks slaves) _ (rw there at e) in
          ap (all_of _) (sym (ok_injective joined))
          ∙ rw (here, task_count-known ids weights ms tasks slaves more rest found) refl
    ]

List-cases :
    (xs : List Candidate)
    → (xs ≡ []) ⊎ ((x : Candidate) × (rest : List Candidate) × (xs ≡ x ∷ rest))
List-cases [] = inl refl
List-cases (x ∷ xs) = inr (x, xs, refl)

-- Until a slave is killed the capacity is that of the start.
abbrev OnTrack : (before : ℕ) → (killed : ℕ) → ℤ → Type 0
OnTrack before zero current = current ≡ pos before
OnTrack before (suc killed) current = Unit {0}

module _ (unit target before : ℕ) (some_unit : 0 < unit) (enough : target * unit ≤ before)
    (ids : List Text) (weights : List ℕ) (id : Text) where
  lowered :
      (killed : ℕ) (current : ℤ) (w : ℕ)
      → OnTrack before killed current
      → contains weights w ≡ true
      → (is_below unit (minus current w) target && not (nat_beq killed 0)) ≡ false
      → Spares unit target before ids weights
          (modify_request id (whole (floor_div (minus current w) unit)))
  lowered killed current w track mine goes_on =
      elim (Bool-cases (is_below unit (minus current w) target)) [
        | inl below ↦ inr (w, mine, first killed track (rw below at goes_on))
        | inr above ↦ inl (floor_div-AtLeast unit (minus current w) target some_unit above)
      ]
    where
      first :
          (killed : ℕ)
          → OnTrack before killed current
          → not (nat_beq killed 0) ≡ false
          → floor_div (minus current w) unit ≡ floor_div (minus (pos before) w) unit
      first zero track e = ap (λ c. floor_div (minus c w) unit) track
      first (suc k) track e = ground arith

  restored :
      (killed : ℕ) (current : ℤ) (w : ℕ)
      → OnTrack before killed current
      → (is_below unit (minus current w) target && not (nat_beq killed 0)) ≡ false
      → is_below unit current target ≡ false
  restored zero current w track goes_on = rw track (ground arith)
  restored (suc k) current w track goes_on = is_below-minus unit current w target (ground arith)

module _ (oracle : Oracle Call) (request : List Call → Result Sfr)
    (mesos : List Call → Result (List Slave × List RunningTask)) (polls : ℕ) (dry_run : Bool)
    (unit : ℕ) (resource : Resource) (target before : ℕ) (some_unit : 0 < unit)
    (enough : target * unit ≤ before) (ids : List Text) (weights : List ℕ) where
  abbrev P : Call → Type 0
  P = Spares unit target before ids weights

  after_attempt-Confined :
      (r : Result Bool) (again next : Act Call Bool)
      → Confined P again
      → Confined P next
      → Confined P (after_attempt oracle request mesos polls dry_run unit resource r again next)
  after_attempt-Confined (ok b) again next ca cn = cn
  after_attempt-Confined (raise http_error) again next ca cn = ca
  after_attempt-Confined (raise fail_set_spot_capacity) again next ca cn = Confined-result (ok true)
  after_attempt-Confined (raise e) again next ca cn = Confined-result (raise e)

  Confined-attempt : (m : Act Call Bool) → Confined P m → Confined P (attempt m)
  Confined-attempt m c = record { at = λ h. c.at h }

  recounted-Confined :
      (slaves : List Candidate)
      → Confined P (recounted oracle request mesos polls dry_run unit resource slaves)
  recounted-Confined slaves =
      Confined-bind _ _ (Confined-ask oracle request mesos polls dry_run P mesos state_summary tt)
        (λ state h e. Confined-result _)

  recounted-known :
      (h : List Call) (slaves counted : List Candidate)
      → all_of (known ids weights) slaves ≡ true
      → (recounted oracle request mesos polls dry_run unit resource slaves h).0 ≡ ok counted
      → all_of (known ids weights) counted ≡ true
  recounted-known h slaves counted all_known e =
      let (state, read, taken, same_end) = action->>=-eq-ok (ask mesos state_summary) _ h e in
      task_count-known ids weights (map (λ (s : Slave). s.id) state.0) state.1 slaves counted
        all_known taken

  loop-Confined :
      (rounds killed : ℕ) (current : ℤ) (slaves : List Candidate)
      → OnTrack before killed current
      → all_of (known ids weights) slaves ≡ true
      → Confined P (
          downscale_spot_fleet_request oracle request mesos polls dry_run unit resource rounds
            target killed current slaves)
  unfolding downscale_spot_fleet_request sort_slaves_to_kill
  loop-Confined zero killed current slaves track all_known = Confined-result (ok false)
  loop-Confined (suc n) killed current slaves track all_known =
      elim (List-cases (sort_by kill_first slaves)) [
        | inl nobody ↦ rw (nobody, downscale_spot_fleet_request) (Confined-result (ok true))
        | inr (s, rest, sorted) ↦
            let sorted_known = all_of-sort_by kill_first (known ids weights) slaves ∙ all_known in
            let (s_known, rest_known) =
              and_parts (known ids weights s) _ (rw sorted at sorted_known) in
            let (mine, weighed) = and_parts (contains ids s.instance_id) _ s_known in
            rw (sorted, downscale_spot_fleet_request)
              (Confined-if
                (is_below unit (minus current s.instance_weight) target && not (nat_beq killed 0)) _
                _ (λ near. Confined-result (ok true))
                (λ goes_on.
                  Confined-bind _ _
                    (Confined-attempt _ (
                      gracefully_terminate_slave-Confined oracle request mesos polls dry_run P s tt
                        mine mine unit resource tt tt tt current (minus current s.instance_weight)
                        (lowered unit target before some_unit enough ids weights resource.id killed
                          current s.instance_weight track weighed goes_on)
                        (restored unit target before some_unit enough ids weights resource.id killed
                          current s.instance_weight track goes_on)))
                    (λ r h e.
                      after_attempt-Confined r _ _
                        (loop-Confined n killed current slaves track all_known)
                        (Confined-bind _ _ (recounted-Confined (reverse rest)) (λ slaves' h' e'.
                          loop-Confined n (suc killed) (minus current s.instance_weight) slaves' tt
                            (recounted-known h' (reverse rest) slaves'
                              (all_of-reverse _ rest rest_known) e'))))))
      ]

known-more :
    (ids : List Text) (weights : List ℕ) (s : Candidate) (slaves : List Candidate)
    → all_of (known ids weights) slaves ≡ true
    → all_of (known (s.instance_id ∷ ids) (s.instance_weight ∷ weights)) slaves ≡ true
known-more ids weights s [] h = refl
known-more ids weights s (x ∷ slaves) h =
    let (here, rest) = and_parts (known ids weights x) _ h in
    let (mine, weighed) = and_parts (contains ids x.instance_id) _ here in
    rw
      (
        or_right (x.instance_id == s.instance_id) mine,
        or_right (x.instance_weight == s.instance_weight) weighed,
        known-more ids weights s slaves rest,
      )
      refl

all_known :
    (slaves : List Candidate) → all_of (known (ids_of slaves) (weights_of slaves)) slaves ≡ true
all_known [] = refl
all_known (s ∷ slaves) =
    rw
      (
        contains-head s.instance_id (ids_of slaves),
        contains-head s.instance_weight (weights_of slaves),
        known-more (ids_of slaves) (weights_of slaves) s slaves (all_known slaves),
      )
      refl

-- Whatever AWS and Mesos answer, a downscale terminates instances of its candidates only. Where it
-- starts with at least its target, a whole capacity that it asks for is at least the target, or that of
-- the start less the weight of one candidate; and a capacity that it restores is at least the target.
pub downscale_spot_fleet_request-Spares :
    (oracle : Oracle Call) (request : List Call → Result Sfr)
    (mesos : List Call → Result (List Slave × List RunningTask)) (polls : ℕ) (dry_run : Bool)
    (unit : ℕ) (resource : Resource) (rounds target before : ℕ) (slaves : List Candidate)
    → 0 < unit
    → target * unit ≤ before
    → Confined (Spares unit target before (ids_of slaves) (weights_of slaves)) (
        downscale_spot_fleet_request oracle request mesos polls dry_run unit resource rounds target
          0
          (pos before)
          slaves)
downscale_spot_fleet_request-Spares oracle request mesos polls dry_run unit resource rounds target
      before slaves some_unit enough =
    loop-Confined oracle request mesos polls dry_run unit resource target before some_unit enough
      (ids_of slaves) (weights_of slaves) rounds 0 (pos before) slaves refl (all_known slaves)
