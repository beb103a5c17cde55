-- ===== src/Effects.antt =====
-- Statements that call other systems (Marathon, Mesos, a drain method) and may raise.
-- A call is an effect, recorded in the history, latest first. What it answers, or raises, is given
-- by an oracle over the history, so every behaviour of the other systems is covered.
pub mod Confined
pub mod Stateful
use paasta.Prelude.{
  ◌≡◌, refl, ap, Bool, List, ◌∷◌, Exception, Result, ok, raise, true, false, if◌then◌else◌,
}

abbrev pub Oracle : Type 0 → Type 0
Oracle E = List E → E → Result Bool

-- The history outlives an exception.
abbrev pub Act : Type 0 → Type 0 → Type 0
Act E A = List E → Result A × List E

-- What follows a `try` body under `finally: cleanup`: an exception of the cleanup wins.
abbrev pub finished {ℓ} : {A : Type ℓ} → Result A → Result Bool → Result A
finished result (ok b) = result
finished result (raise e) = raise e

module _ {E : Type 0} where
  unfoldable pub call : Oracle E → E → Act E Bool
  call oracle effect h = (oracle h effect, effect ∷ h)

  module _ {A : Type 0} where
    abbrev pub pure : A → Act E A
    pure a h = (ok a, h)

    abbrev pub throw : Exception → Act E A
    throw e h = (raise e, h)

    -- What an `except` clause does with a result.
    abbrev pub caught : Result A → (Exception → Act E A) → Act E A
    caught (ok a) handler = pure a
    caught (raise e) handler = handler e

    -- `try: body` / `except Exception as e: handler(e)`
    abbrev pub try_except : Act E A → (Exception → Act E A) → Act E A
    try_except body handler h = let (result, after) = body h in caught result handler after

    -- `try: body` / `finally: cleanup`
    abbrev pub try_finally : Act E A → Act E Bool → Act E A
    try_finally body cleanup h =
        let (result, after) = body h in
        let (done, last) = cleanup after in (finished result done, last)

  module _ {A B : Type 0} where
    abbrev pub and_then : Result A → (A → Act E B) → Act E B
    and_then (ok a) f = f a
    and_then (raise e) f = throw e

    infixl 5 ◌>>=◌ ◌>>◌
    abbrev pub ◌>>=◌ : Act E A → (A → Act E B) → Act E B
    m >>= f = λ h. let (result, after) = m h in and_then result f after

    abbrev pub ◌>>◌ : Act E A → Act E B → Act E B
    m >> n = m >>= λ _. n

    -- Inversion of a bind that succeeds.
    pub >>=-eq-ok :
        (m : Act E A) (f : A → Act E B) (h : List E) {b : B}
        → ((m >>= f) h).0 ≡ ok b
        → (a : A) × ((m h).0 ≡ ok a) × ((f a (m h).1).0 ≡ ok b) × ((m >>= f) h ≡ f a (m h).1)
    >>=-eq-ok m f h e = let (result, after) = m h in step result after e
      where
        step :
            (r : Result A) (after : List E) {b : B}
            → (and_then r f after).0 ≡ ok b
            → (a : A) × (r ≡ ok a) × ((f a after).0 ≡ ok b) × (and_then r f after ≡ f a after)
        step (ok a) after e' = (a, refl, e', refl)
        step (raise x) after e' = cc

module _ {E A : Type 0} where
  -- Where a `try … finally` returns, its body returned the same.
  pub try_finally-eq-ok :
      (body : Act E A) (cleanup : Act E Bool) (h : List E) {a : A}
      → (try_finally body cleanup h).0 ≡ ok a
      → ((body h).0 ≡ ok a) × ((try_finally body cleanup h).1 ≡ (cleanup (body h).1).1)
  try_finally-eq-ok body cleanup h e =
      let (result, after) = body h in
      let (done, last) = cleanup after in (inner result done e, refl)
    where
      inner : (r : Result A) (d : Result Bool) {a : A} → finished r d ≡ ok a → r ≡ ok a
      inner r (ok b) e' = e'
      inner r (raise x) e' = cc

  -- A handler that raises what it catches, or something else.
  abbrev pub Reraises : (Exception → Act E A) → Type 0
  Reraises handler = (x : Exception) (h : List E) → (y : Exception) × (handler x h ≡ (raise y, h))

  -- Where a `try … except` with such a handler returns, its body did.
  pub try_except-eq-ok :
      (body : Act E A) (handler : Exception → Act E A)
      → Reraises handler
      → (h : List E) {a : A} → (try_except body handler h).0 ≡ ok a
      → ((body h).0 ≡ ok a) × ((try_except body handler h).1 ≡ (body h).1)
  try_except-eq-ok body handler fails h e = let (result, after) = body h in inner result after e
    where
      inner :
          (r : Result A) (after : List E) {a : A}
          → (caught r handler after).0 ≡ ok a
          → (r ≡ ok a) × ((caught r handler after).1 ≡ after)
      inner (ok b) after e' = (e', refl)
      inner (raise x) after e' =
          let (y, raised) = fails x after in cc (e', ap (λ (p : Result A × List E). p.0) raised)

-- Whatever an action returns satisfies `P`.
abbrev pub Outcome {ℓ} : {E A : Type 0} → (A → Type ℓ) → Act E A → Type ℓ
Outcome {E} {A} P m = (h : List E) (a : A) → (m h).0 ≡ ok a → P a

pub Outcome-bind {ℓ} :
    {E A B : Type 0} (P : B → Type ℓ) (m : Act E A) (f : A → Act E B)
    → ((a : A) → Outcome P (f a))
    → Outcome P (m >>= f)
Outcome-bind P m f each h b e =
    let (a, first, second, same) = >>=-eq-ok m f h e in each a _ b second

pub Outcome-if {ℓ} :
    {E A : Type 0} (P : A → Type ℓ) (b : Bool) (m n : Act E A)
    → Outcome P m
    → Outcome P n
    → Outcome P (if b then m else n)
Outcome-if P true m n hm hn = hm
Outcome-if P false m n hm hn = hn
