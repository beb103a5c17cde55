-- ===== src/Effects/Stateful.antt =====
-- Statements on a state that may raise: the state outlives an exception.
use paasta.Prelude.{◌≡◌, refl, Bool, true, false, Exception, Result, ok, raise, if◌then◌else◌}

abbrev pub Prog : Type 0 → Type 0 → Type 0
Prog S A = S → Result A × S

module _ {S A : Type 0} where
  abbrev pub pure : A → Prog S A
  pure a s = (ok a, s)

  abbrev pub throw : Exception → Prog S A
  throw e s = (raise e, s)

  -- A result that was computed without the state.
  abbrev pub lift : Result A → Prog S A
  lift r s = (r, s)

  abbrev pub read : (S → A) → Prog S A
  read f s = (ok (f s), s)

  -- A result that is computed from the state, or raises.
  abbrev pub compute : (S → Result A) → Prog S A
  compute f s = (f s, s)

abbrev pub update : {S : Type 0} → (S → S) → Prog S Bool
update f s = (ok true, f s)

module _ {S A B : Type 0} where
  abbrev pub and_then : Result A → (A → Prog S B) → Prog S B
  and_then (ok a) f = f a
  and_then (raise e) f = throw e

  infixl 5 ◌>>=◌ ◌>>◌
  abbrev pub ◌>>=◌ : Prog S A → (A → Prog S B) → Prog S B
  m >>= f = λ s. let (result, after) = m s in and_then result f after

  abbrev pub ◌>>◌ : Prog S A → Prog S B → Prog S B
  m >> n = m >>= λ _. n

  -- Inversion of a bind that succeeds.
  pub >>=-eq-ok :
      (m : Prog S A) (f : A → Prog S B) (s : S) {b : B}
      → ((m >>= f) s).0 ≡ ok b
      → (a : A) × ((m s).0 ≡ ok a) × ((f a (m s).1).0 ≡ ok b) × ((m >>= f) s ≡ f a (m s).1)
  >>=-eq-ok m f s e = let (result, after) = m s in split_on result after e
    where
      split_on :
          (r : Result A) (after : S) {b : B}
          → (and_then r f after).0 ≡ ok b
          → (a : A) × (r ≡ ok a) × ((f a after).0 ≡ ok b) × (and_then r f after ≡ f a after)
      split_on (ok a) after returned = (a, refl, returned, refl)
      split_on (raise x) after returned = cc

-- A predicate on the state that a statement keeps, whether it returns or raises.
pub record Keeps {S A : Type 0} (P : S → Type 0) (m : Prog S A) : Type 0 where
  pub at : (s : S) → P s → P (m s).1

module _ {S : Type 0} {P : S → Type 0} where
  pub Keeps-result : {A : Type 0} (r : Result A) → Keeps P (lift r)
  Keeps-result r = record { at = λ s p. p }

  pub Keeps-read : {A : Type 0} (f : S → A) → Keeps P (read f)
  Keeps-read f = record { at = λ s p. p }

  pub Keeps-compute : {A : Type 0} (f : S → Result A) → Keeps P (compute f)
  Keeps-compute f = record { at = λ s p. p }

  pub Keeps-update : (f : S → S) → ((s : S) → P s → P (f s)) → Keeps P (update f)
  Keeps-update f keep = record { at = keep }

  pub Keeps-if :
      {A : Type 0} (b : Bool) (m n : Prog S A)
      → Keeps P m
      → Keeps P n
      → Keeps P (if b then m else n)
  Keeps-if true m n km kn = km
  Keeps-if false m n km kn = kn

  module _ {A B : Type 0} where
    then_keeps :
        (r : Result A) (f : A → Prog S B) (s : S)
        → P s
        → ((a : A) → r ≡ ok a → Keeps P (f a))
        → P (and_then r f s).1
    then_keeps (ok a) f s p k = (k a refl).at s p
    then_keeps (raise x) f s p k = p

    -- What follows may use that the first part returned what it did.
    pub Keeps-bind :
        (m : Prog S A) (f : A → Prog S B)
        → Keeps P m
        → ((a : A) (s : S) → (m s).0 ≡ ok a → Keeps P (f a))
        → Keeps P (m >>= f)
    Keeps-bind m f km kf = record {
      at = λ s p. then_keeps (m s).0 f (m s).1 (km.at s p) (λ a e. kf a s e);
    }

    pub Keeps-seq : (m : Prog S A) (n : Prog S B) → Keeps P m → Keeps P n → Keeps P (m >> n)
    Keeps-seq m n km kn = Keeps-bind m (λ _. n) km (λ a s e. kn)
