-- ===== src/Effects/Confined.antt =====
-- Actions whose calls all satisfy a predicate, one rule for each way to build an action.
use paasta.Prelude.{
  ◌≡◌, refl, Bool, true, false, List, ◌∷◌, Exception, Result, ok, raise, if◌then◌else◌,
}
use paasta.Effects.{Act, Oracle, call, try_except, try_finally, caught, and_then, ◌>>=◌}

-- The second history is the first with more calls, each of which satisfies `P`.
pub data Extends {E : Type 0} (P : E → Type 0) (h : List E) : List E → Type 0 where
  same : Extends P h h
  more : {e : E} {h' : List E} → P e → Extends P h h' → Extends P h (e ∷ h')

pub Extends-trans :
    {E : Type 0} {P : E → Type 0} {h h' h'' : List E}
    → Extends P h h'
    → Extends P h' h''
    → Extends P h h''
Extends-trans a same = a
Extends-trans a (more p b) = more p (Extends-trans a b)

pub record Confined {E A : Type 0} (P : E → Type 0) (m : Act E A) : Type 0 where
  pub at : (h : List E) → Extends P h (m h).1

module _ {E : Type 0} {P : E → Type 0} where
  pub Confined-call : (oracle : Oracle E) (e : E) → P e → Confined P (call oracle e)
  unfolding call
  Confined-call oracle e p = record { at = λ h. more p same }

  module _ {A : Type 0} where
    pub Confined-result : (r : Result A) → Confined P (λ h. (r, h))
    Confined-result r = record { at = λ h. same }

    pub Confined-if :
        (b : Bool) (m n : Act E A)
        → (b ≡ true → Confined P m)
        → (b ≡ false → Confined P n)
        → Confined P (if b then m else n)
    Confined-if true m n hm hn = hm refl
    Confined-if false m n hm hn = hn refl

    caught_at :
        (r : Result A) (handler : Exception → Act E A) (h : List E)
        → ((x : Exception) → Confined P (handler x))
        → Extends P h (caught r handler h).1
    caught_at (ok a) handler h c = same
    caught_at (raise x) handler h c = (c x).at h

    pub Confined-try_except :
        (m : Act E A) (handler : Exception → Act E A)
        → Confined P m
        → ((x : Exception) → Confined P (handler x))
        → Confined P (try_except m handler)
    Confined-try_except m handler cm ch = record {
      at = λ h. Extends-trans (cm.at h) (caught_at (m h).0 handler (m h).1 ch);
    }

    pub Confined-try_finally :
        (m : Act E A) (cleanup : Act E Bool)
        → Confined P m
        → Confined P cleanup
        → Confined P (try_finally m cleanup)
    Confined-try_finally m cleanup cm cc' = record {
      at = λ h. Extends-trans (cm.at h) (cc'.at (m h).1);
    }

  module _ {A B : Type 0} where
    then_at :
        (r : Result A) (f : A → Act E B) (h : List E)
        → ((a : A) → r ≡ ok a → Confined P (f a))
        → Extends P h (and_then r f h).1
    then_at (ok a) f h c = (c a refl).at h
    then_at (raise x) f h c = same

    -- What follows may use that the first part returned what it did.
    pub Confined-bind :
        (m : Act E A) (f : A → Act E B)
        → Confined P m
        → ((a : A) (h : List E) → (m h).0 ≡ ok a → Confined P (f a))
        → Confined P (m >>= f)
    Confined-bind m f cm cf = record {
      at = λ h. Extends-trans (cm.at h) (then_at (m h).0 f (m h).1 (λ a e. cf a h e));
    }

    pub Confined-seq :
        (m : Act E A) (n : Act E B) → Confined P m → Confined P n → Confined P (m >>= λ _. n)
    Confined-seq m n cm cn = Confined-bind m (λ _. n) cm (λ a h e. cn)
