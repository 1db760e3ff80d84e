-- ===== src/Error/Effect.antt =====
-- The monad of service coroutines, with the state beside the result on both outcomes.
pub mod Laws
use cppadmin.Base.{Bool, true, false, List, [], ◌∷◌, Option, none, some, ◌≡◌, arith}
use cppadmin.Error.{Error, other}

pub data Result {ℓ} (A : Type ℓ) : Type ℓ where
  ok : A → Result A
  err : Error → Result A

abbrev pub Effect : Type 0 → Type 0 → Type 0
Effect S A = S → Result A × S

module _ {S : Type 0} where
  abbrev pub pure : {A : Type 0} → A → Effect S A
  pure a s = (ok a, s)

  abbrev pub throw : {A : Type 0} → Error → Effect S A
  throw e s = (err e, s)

  abbrev continue : {A B : Type 0} → Result A → (A → Effect S B) → Effect S B
  continue (ok a) f s = f a s
  continue (err e) f s = (err e, s)

  infixl 5 ◌>>=◌ ◌>>◌
  abbrev pub ◌>>=◌ : {A B : Type 0} → Effect S A → (A → Effect S B) → Effect S B
  ◌>>=◌ m f s = continue (m s).0 f (m s).1

  abbrev pub ◌>>◌ : {B : Type 0} → Effect S (Unit {0}) → Effect S B → Effect S B
  ◌>>◌ m k = m >>= λ _. k

  -- `if (bad) throw e;`
  abbrev pub throw_if : Bool → Error → Effect S (Unit {0})
  throw_if true e s = (err e, s)
  throw_if false e s = (ok tt, s)

  -- A call that returns a value and leaves the state alone, or throws.
  abbrev pub reads : {A : Type 0} → (S → Option A) → Effect S A
  reads q s = elim (q s) [ none ↦ (err other, s) | some a ↦ (ok a, s) ]

  -- A call that changes the state, or throws and leaves it alone.
  abbrev pub writes : (S → Option S) → Effect S (Unit {0})
  writes w s = elim (w s) [ none ↦ (err other, s) | some s' ↦ (ok tt, s') ]

  -- `for (const auto &x : xs) body(x);`
  unfoldable pub for_each : {A : Type 0} → List A → (A → Effect S (Unit {0})) → Effect S (Unit {0})
  for_each [] body s = (ok tt, s)
  for_each (x ∷ xs) body s = continue (body x s).0 (λ _. for_each xs body) (body x s).1

  pub writes-some : (w : S → Option S) (s s' : S) → w s ≡ some s' → writes w s ≡ (ok tt, s')
  writes-some w s s' e = ground arith

  pub writes-none : (w : S → Option S) (s : S) → w s ≡ none → writes w s ≡ (err other, s)
  writes-none w s e = ground arith
