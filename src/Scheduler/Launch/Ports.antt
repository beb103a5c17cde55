-- ===== src/Scheduler/Launch/Ports.antt =====
-- The ports that the loop of start_task takes and those that it leaves.
use paasta.Prelude.{
  ℕ, nat_eq, ◌≤◌, ◌<◌, nat_beq, nat_beq_iff, ◌≡◌, refl, sym, ap, ◌∙◌, inl, inr, text_eq, Bool, true,
  false, ◌&&◌, not, List, [], ◌∷◌, ◌++◌, contains, contains-append, contains-diff, no_repeats,
  or_cases, Bool-cases, diff, select, length, arith,
}
use paasta.Scheduler.{TaskInfo}
use paasta.Scheduler.Launch.{offered}

select_le : (p : ℕ → Bool) (xs : List ℕ) → length (select p xs) ≤ length xs
select_le p [] = omega arith
select_le p (x ∷ xs) = ground (arith, select_le p xs)

pub length-diff_member :
    (x : ℕ) (xs : List ℕ) → contains xs x ≡ true → length (diff xs (x ∷ [])) < length xs
unfolding diff
length-diff_member x [] m = cc
length-diff_member x (y ∷ xs) m =
    ground (arith, length-diff_member x xs, select_le (λ z. not (contains (x ∷ []) z)) xs)

and_false : (b : Bool) → (b && false) ≡ false
and_false b = ground arith

abbrev pub host_ports : List TaskInfo → List ℕ
host_ports [] = []
host_ports (t ∷ ts) = t.host_port ∷ host_ports ts

pub host_ports-append :
    (ts : List TaskInfo) (t : TaskInfo)
    → host_ports (ts ++ t ∷ []) ≡ host_ports ts ++ t.host_port ∷ []
host_ports-append [] t = refl
host_ports-append (u ∷ ts) t = ap (λ l. u.host_port ∷ l) (host_ports-append ts t)

pub no_repeats-append :
    (xs : List ℕ) (x : ℕ)
    → no_repeats xs ≡ true
    → contains xs x ≡ false
    → no_repeats (xs ++ x ∷ []) ≡ true
no_repeats-append [] x d new = refl
no_repeats-append (y ∷ xs) x d new =
    ground (arith, no_repeats-append xs x, contains-append xs (x ∷ []) y)

abbrev Used : (offered left used : List ℕ) → Type 0
Used offered left used =
    (p : ℕ) → contains used p ≡ true → (contains offered p ≡ true) × (contains left p ≡ false)

-- A port that is taken counts as used, and is not left.
pub diff-Used :
    (offered left used : List ℕ) (port : ℕ)
    → contains offered port ≡ true
    → Used offered left used
    → Used offered (diff left (port ∷ [])) (used ++ port ∷ [])
diff-Used offered left used port of_offer before p m =
    rw (contains-diff left (port ∷ []) p)
      (elim (or_cases (contains used p) _ (sym (contains-append used (port ∷ []) p) ∙ m)) [
        | inl old ↦ let (of_before, gone) = before p old in (of_before, rw gone refl)
        | inr new ↦ elim (Bool-cases (nat_beq p port)) [
          | inl same ↦
              (rw ((nat_beq_iff p port).0 same) of_offer, rw same (and_false (contains left p)))
          | inr other ↦ cc (rw other at new)
        ]
      ])
