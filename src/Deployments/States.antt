-- ===== src/Deployments/States.antt =====
-- The state that get_desired_state chooses.
use paasta.Prelude.{
  text_leb, text_leb_refl, text_leb_trans, text_leb_total, ◌≡◌, refl, sym, ap, ◌∙◌, ◌⊎◌, inl, inr,
  Text, text_eq, Bool, true, false, Option, none, some, [], ◌∷◌, Bool-cases,
}
use mathlib.Core.List.{Memᴰ}
use paasta.Deployments.{
  DesiredState, Refs, control_tag, get_desired_state, get_latest_deployment_tag, is_sha, or_start,
  sorts_last, start, states_loop, take_state,
}

abbrev State : Type 0
State = DesiredState × Text

-- The state found sorts at or after the given force_bounce.
data AtLeast (t : Text) : Option State → Type 0 where
  at_least : {s : DesiredState} {u : Text} → text_leb t u ≡ true → AtLeast t (some (s, u))

sorts_last-keeps :
    (t : Text) (x : State) (best : Option State)
    → AtLeast t best
    → AtLeast t (some (sorts_last best x))
sorts_last-keeps t (s, v) _ (at_least {u} h) = elim (Bool-cases (text_leb u v)) [
  | inl later ↦ rw later (at_least (text_leb_trans t u v h later))
  | inr earlier ↦ rw earlier (at_least h)
]

sorts_last-AtLeast : (x : State) (best : Option State) → AtLeast x.1 (some (sorts_last best x))
sorts_last-AtLeast (s, v) none = at_least (text_leb_refl v)
sorts_last-AtLeast (s, v) (some (s', u)) = elim (Bool-cases (text_leb u v)) [
  | inl later ↦ rw later (at_least (text_leb_refl v))
  | inr earlier ↦ rw earlier (at_least (text_leb_total u v earlier))
]

take_state-keeps :
    (t : Text) (head : Bool) (found best : Option State)
    → AtLeast t best
    → AtLeast t (take_state head found best)
take_state-keeps t true none best h = h
take_state-keeps t true (some x) best h = sorts_last-keeps t x best h
take_state-keeps t false found best h = h

sorts_last_either :
    (x : State) (best : Option State) → (sorts_last best x ≡ x) ⊎ (some (sorts_last best x) ≡ best)
sorts_last_either x none = inl refl
sorts_last_either x (some y) = elim (Bool-cases (text_leb y.1 x.1)) [
  | inl later ↦ inl (rw later refl)
  | inr earlier ↦ inr (rw earlier refl)
]

take_state_either :
    (head : Bool) (found best : Option State)
    → ((head ≡ true) × (take_state head found best ≡ found)) ⊎ (take_state head found best ≡ best)
take_state_either true none best = inr refl
take_state_either true (some x) best = elim (sorts_last_either x best) [
  | inl taken ↦ inl (refl, ap some taken)
  | inr kept ↦ inr kept
]
take_state_either false found best = inr refl

module _ (branch : Text) (head : Option (Text × Text)) where
  -- A tag on the head's commit that asks for the state.
  pub record Asks (refs : Refs) (ref sha : Text) (state : State) : Type 0 where
    pub listed : Memᴰ (ref, sha) refs
    pub on_head : is_sha sha head ≡ true
    pub reads : control_tag branch ref ≡ some state

  states_loop-keeps :
      (t : Text) (refs : Refs) (best : Option State)
      → AtLeast t best
      → AtLeast t (states_loop branch head refs best)
  states_loop-keeps t [] best h = h
  states_loop-keeps t ((ref, sha) ∷ refs) best h =
      states_loop-keeps t refs _
        (take_state-keeps t (is_sha sha head) (control_tag branch ref) best h)

  states_loop-AtLeast :
      (refs : Refs) (best : Option State) (ref sha : Text) (x : State)
      → Memᴰ (ref, sha) refs
      → is_sha sha head ≡ true
      → control_tag branch ref ≡ some x
      → AtLeast x.1 (states_loop branch head refs best)
  states_loop-AtLeast [] best ref sha x there on_head reads = elim there [ ]
  states_loop-AtLeast ((r, s) ∷ refs) best ref sha x (Memᴰ.head here) on_head reads =
      let reads_here : control_tag branch r ≡ some x =
        sym (ap (λ (y : Text × Text). control_tag branch y.0) here) ∙ reads in
      let on_head_here : is_sha s head ≡ true =
        sym (ap (λ (y : Text × Text). is_sha y.1 head) here) ∙ on_head in
      states_loop-keeps x.1 refs _ (rw (reads_here, on_head_here) (sorts_last-AtLeast x best))
  states_loop-AtLeast ((r, s) ∷ refs) best ref sha x (Memᴰ.tail there) on_head reads =
      states_loop-AtLeast refs _ ref sha x there on_head reads

  states_loop-source :
      (refs : Refs) (best : Option State) (x : State)
      → states_loop branch head refs best ≡ some x
      → (best ≡ some x) ⊎ ((ref : Text) × (sha : Text) × Asks refs ref sha x)
  states_loop-source [] best x e = inl e
  states_loop-source ((r, s) ∷ refs) best x e =
      elim (states_loop-source refs (take_state (is_sha s head) (control_tag branch r) best) x e) [
        | inr (ref, sha, asks) ↦ inr (
          ref,
          sha,
          record { listed = Memᴰ.tail asks.listed; on_head = asks.on_head; reads = asks.reads },
        )
        | inl taken ↦ elim (take_state_either (is_sha s head) (control_tag branch r) best) [
          | inl (on_head, found) ↦ inr (
            r,
            s,
            record { listed = Memᴰ.head refl; on_head = on_head; reads = sym found ∙ taken },
          )
          | inr kept ↦ inl (sym kept ∙ taken)
        ]
      ]

-- What get_desired_state answers: the state of a tag of the branch on the commit of the latest
-- deployment, whose force_bounce no other such tag's sorts after, or start where there is no such tag.
pub data Decided (branch : Text) (head : Option (Text × Text)) (refs : Refs)
    : DesiredState × Option Text → Type 0 where
  asked :
      {ref sha : Text} {state : DesiredState} {force_bounce : Text}
      → Asks branch head refs ref sha (state, force_bounce)
      → ((ref' sha' : Text) (other : State)
          → Asks branch head refs ref' sha' other
          → text_leb other.1 force_bounce ≡ true)
      → Decided branch head refs (state, some force_bounce)
  unasked :
      ((ref sha : Text) (state : State) → Asks branch head refs ref sha state → ⊥)
      → Decided branch head refs (start, none)

AtLeast-none : {t : Text} → AtLeast t none → ⊥
AtLeast-none h = elim h [ ]

AtLeast-some : {t u : Text} {s : DesiredState} → AtLeast t (some (s, u)) → text_leb t u ≡ true
AtLeast-some (at_least h) = h

pub get_desired_state-Decided :
    (branch : Text) (refs : Refs) (group : Text)
    → Decided branch
        (get_latest_deployment_tag refs group)
        refs
        (get_desired_state branch refs group)
unfolding get_desired_state
get_desired_state-Decided branch refs group = split_on (states_loop branch head refs none) refl
  where
    head : Option (Text × Text)
    head = get_latest_deployment_tag refs group

    split_on :
        (best : Option State)
        → states_loop branch head refs none ≡ best
        → Decided branch head refs (or_start best)
    split_on none e = unasked λ ref sha x asks. AtLeast-none (
        rw e at
          (states_loop-AtLeast branch head refs none ref sha x asks.listed asks.on_head asks.reads))
    split_on (some (state, force_bounce)) e =
        elim (states_loop-source branch head refs none (state, force_bounce) e) [
          | inl impossible ↦ cc
          | inr (ref, sha, asks) ↦ asked asks λ ref' sha' x asks'. AtLeast-some (
              rw e at (
                states_loop-AtLeast branch head refs none ref' sha' x asks'.listed asks'.on_head
                  asks'.reads))
        ]
