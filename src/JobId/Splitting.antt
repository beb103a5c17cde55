-- ===== src/JobId/Splitting.antt =====
-- str.split on joined parts.
use paasta.Prelude.{ℕ, nat_eq, Text, ◌≡◌, refl, false, [], ◌∷◌, ◌++◌, nat_beq, contains, arith}
use paasta.JobId.{split}

-- The text does not hold the separator.
abbrev pub Lacks : ℕ → Text → Type 0
Lacks c s = contains s c ≡ false

Lacks-cons : (c a : ℕ) (s : Text) → Lacks c (a ∷ s) → (nat_beq a c ≡ false) × Lacks c s
Lacks-cons c a s h = ground arith

pub split-none : (c : ℕ) (s : Text) → Lacks c s → split c s ≡ s ∷ []
unfolding split
split-none c [] h = refl
split-none c (a ∷ s) h =
    let (differs, rest) = Lacks-cons c a s h in ground (arith, split-none c s rest, differs)

pub split-append : (c : ℕ) (s t : Text) → Lacks c s → split c (s ++ c ∷ t) ≡ s ∷ split c t
unfolding split
split-append c [] t h = ground arith
split-append c (a ∷ s) t h =
    let (differs, rest) = Lacks-cons c a s h in ground (arith, split-append c s t rest, differs)
