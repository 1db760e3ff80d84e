-- ===== src/Error/Effect/Laws.antt =====
-- Reasoning about chains of effects: what a chain that succeeds went through, and that a chain
-- whose guards come before its writes leaves the state alone when it refuses.
use cppadmin.Base.{
  ℕ, Bytes, Bool, true, false, List, [], ◌∷◌, Option, some, ◌≡◌, ◌≢◌, refl, ◌∙◌, arith,
  Option-cases, inl, inr,
}
use cppadmin.Error.{Error, app}
use cppadmin.Error.Effect.{
  Result, ok, err, Effect, continue, ◌>>=◌, throw_if, reads, writes, for_each, pure,
}

module _ {S : Type 0} where
  module _ {A B : Type 0} (f : A → Effect S B) (b : B) where
    continue-ok :
        (p : Result A × S)
        → (continue p.0 f p.1).0 ≡ ok b
        → (a : A) × (s' : S) × (p ≡ (ok a, s'))
          × ((f a s').0 ≡ ok b)
          × (continue p.0 f p.1 ≡ f a s')
    continue-ok (ok a, s') h = (a, s', refl, h, refl)
    continue-ok (err e, s') h = absurd (ground arith)

    -- A chain that succeeds went through its first step.
    pub bind-ok :
        (m : Effect S A) (s : S)
        → ((m >>= f) s).0 ≡ ok b
        → (a : A) × (s' : S) × (m s ≡ (ok a, s')) × ((f a s').0 ≡ ok b) × ((m >>= f) s ≡ f a s')
    bind-ok m s h = continue-ok (m s) h

  pub writes-ok :
      (w : S → Option S) (s s' : S) (u : Unit {0}) → writes w s ≡ (ok u, s') → w s ≡ some s'
  writes-ok w s s' u h = elim (Option-cases (w s)) [
    | inl e ↦ absurd (ground arith)
    | inr (s1, e) ↦ ground arith
  ]

  -- The step never throws an `AppError`.
  abbrev pub NeverRefuses : {A : Type 0} → Effect S A → Type 0
  NeverRefuses {A} m = (s : S) (msg : Bytes) (code : ℕ) → (m s).0 ≢ err (app msg code)

  -- A step that throws an `AppError` leaves the state alone.
  abbrev pub RefusesCleanly : {A : Type 0} → Effect S A → Type 0
  RefusesCleanly {A} m =
      (s : S) (msg : Bytes) (code : ℕ) → (m s).0 ≡ err (app msg code) → (m s).1 ≡ s

  abbrev pub IsReadOnly : {A : Type 0} → Effect S A → Type 0
  IsReadOnly {A} m = (s : S) → (m s).1 ≡ s

  pub NeverRefuses-RefusesCleanly :
      {A : Type 0} (m : Effect S A) → NeverRefuses m → RefusesCleanly m
  NeverRefuses-RefusesCleanly m h s msg code e = absurd (h s msg code e)

  pub writes-NeverRefuses : (w : S → Option S) → NeverRefuses (writes w)
  writes-NeverRefuses w s msg code e = elim (Option-cases (w s)) [
    | inl f ↦ ground arith
    | inr (s', f) ↦ ground arith
  ]

  pub pure-NeverRefuses : {A : Type 0} (a : A) → NeverRefuses (pure {S = S} a)
  pure-NeverRefuses a s msg code e = absurd (ground arith)

  pub reads-IsReadOnly : {A : Type 0} (q : S → Option A) → IsReadOnly (reads q)
  reads-IsReadOnly q s = elim (Option-cases (q s)) [
    | inl f ↦ ground arith
    | inr (a, f) ↦ ground arith
  ]

  pub throw_if-IsReadOnly : (b : Bool) (e : Error) → IsReadOnly (throw_if b e)
  throw_if-IsReadOnly true e s = refl
  throw_if-IsReadOnly false e s = refl

  module _ {A B : Type 0} (m : Effect S A) (f : A → Effect S B) where
    continue-NeverRefuses :
        (p : Result A × S)
        → ((msg : Bytes) (code : ℕ) → p.0 ≢ err (app msg code))
        → ((a : A) → NeverRefuses (f a))
        → (msg : Bytes) (code : ℕ) → (continue p.0 f p.1).0 ≢ err (app msg code)
    continue-NeverRefuses (ok a, s) h k msg code e = k a s msg code e
    continue-NeverRefuses (err x, s) h k msg code e = h msg code (ground arith)

    pub bind-NeverRefuses : NeverRefuses m → ((a : A) → NeverRefuses (f a)) → NeverRefuses (m >>= f)
    bind-NeverRefuses h k s = continue-NeverRefuses (m s) (h s) k

    continue-RefusesCleanly :
        (p : Result A × S) (s : S)
        → p.1 ≡ s
        → ((a : A) → RefusesCleanly (f a))
        → (msg : Bytes) (code : ℕ) → (continue p.0 f p.1).0 ≡ err (app msg code)
        → (continue p.0 f p.1).1 ≡ s
    continue-RefusesCleanly (ok a, s') s h k msg code e = k a s' msg code e ∙ h
    continue-RefusesCleanly (err x, s') s h k msg code e = h

    -- Guards and reads may come before a step that refuses cleanly.
    pub bind-RefusesCleanly :
        IsReadOnly m → ((a : A) → RefusesCleanly (f a)) → RefusesCleanly (m >>= f)
    bind-RefusesCleanly h k s = continue-RefusesCleanly (m s) s (h s) k

  pub for_each-NeverRefuses :
      {A : Type 0} (xs : List A) (body : A → Effect S (Unit {0}))
      → ((a : A) → NeverRefuses (body a))
      → NeverRefuses (for_each xs body)
  unfolding for_each
  for_each-NeverRefuses [] body h s msg code = λ e. absurd (ground arith)
  for_each-NeverRefuses (x ∷ xs) body h s msg code =
      continue-NeverRefuses (body x) (λ _. for_each xs body) (body x s) (h x s)
        (λ _. for_each-NeverRefuses xs body h) msg code
