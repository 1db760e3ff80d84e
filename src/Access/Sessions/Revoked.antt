-- ===== src/Access/Sessions/Revoked.antt =====
-- What the rows of a revoked id answer, and that no later logout changes it.
use cppadmin.Base.{
  ℕ, ◌≡◌, ◌≢◌, refl, ◌∙◌, subst, Bytes, bytes_beq_iff, bytes_beq_refl, Bool, true, false, List, [],
  ◌∷◌, ◌++◌, any, All, arith, Bool-cases, inl, inr, ltb, ◌&&◌, ◌||◌, not, is_empty, is_empty_lem,
  ◌==◌, bytes_eq,
}
use cppadmin.Jwt.Library.{Library}
use cppadmin.Jwt.Token.{verify}
use cppadmin.Access.Sessions.{
  Sessions, blacklist, is_blacklisted, post_logout, Step, wait, logout, Reach, here, next,
}

-- Every row of the id has that expiry.
abbrev pub HasExpiry : Bytes → ℕ → List (Bytes × ℕ) → Type 0
HasExpiry jti exp rows = All (λ r. r.0 ≡ jti → r.1 ≡ exp) rows

-- There is a row of the id, and every one has that expiry.
abbrev pub IsRevoked : Bytes → ℕ → List (Bytes × ℕ) → Type 0
IsRevoked jti exp rows = (any (λ r. r.0 == jti) rows ≡ true) × HasExpiry jti exp rows

pub any-append :
    (p : Bytes × ℕ → Bool) (xs ys : List (Bytes × ℕ)) → any p (xs ++ ys) ≡ (any p xs || any p ys)
any-append p [] ys = refl
any-append p (x ∷ xs) ys = ground (arith, any-append p xs ys)

All-append :
    (jti : Bytes) (exp : ℕ) (xs ys : List (Bytes × ℕ))
    → HasExpiry jti exp xs
    → HasExpiry jti exp ys
    → HasExpiry jti exp (xs ++ ys)
All-append jti exp [] ys p q = q
All-append jti exp (x ∷ xs) ys (p, ps) q = (p, All-append jti exp xs ys ps q)

absorb : (a b c : Bool) → c ≡ (b && a) → (a || c) ≡ a
absorb true b c p = refl
absorb false true c p = p
absorb false false c p = p

pub is_blacklisted_lem :
    (jti : Bytes) (exp now : ℕ) (rows : List (Bytes × ℕ))
    → HasExpiry jti exp rows
    → is_blacklisted jti now rows ≡ (any (λ r. r.0 == jti) rows && ltb now exp)
unfolding is_blacklisted
is_blacklisted_lem jti exp now [] p = refl
is_blacklisted_lem jti exp now (r ∷ rows) (p, ps) =
    let rest = is_blacklisted_lem jti exp now rows ps in
    elim (Bool-cases (r.0 == jti)) [
      | inl same ↦
          let expiry = p ((bytes_beq_iff r.0 jti).0 same) in
          rw (same, expiry) (absorb (ltb now exp) _ _ rest)
      | inr other ↦ rw other rest
    ]

-- The row of a first logout.
blacklist-IsRevoked :
    (jti : Bytes) (exp : ℕ) (rows : List (Bytes × ℕ))
    → HasExpiry jti exp rows
    → IsRevoked jti exp (blacklist jti exp rows)
unfolding blacklist
blacklist-IsRevoked jti exp rows p = elim (Bool-cases (any (λ r. r.0 == jti) rows)) [
  | inl there ↦ rw there (there, p)
  | inr absent ↦ rw absent (
    any-append _ rows _ ∙ rw (absent, bytes_beq_refl jti) refl,
    All-append jti exp rows _ p ((λ e. refl), tt),
  )
]

-- Other logouts leave it alone.
blacklist-kept :
    (jti other : Bytes) (exp expires : ℕ) (rows : List (Bytes × ℕ))
    → IsRevoked jti exp rows
    → IsRevoked jti exp (blacklist other expires rows)
unfolding blacklist
blacklist-kept jti other exp expires rows (found, p) =
    elim (Bool-cases (any (λ r. r.0 == other) rows)) [
      | inl there ↦ rw there (found, p)
      | inr absent ↦ rw absent (
        any-append _ rows _ ∙ rw found refl,
        All-append jti exp rows _ p (
          (λ e.
              absurd (
                let gone = subst (λ k. any (λ r. r.0 == k) rows ≡ false) e absent in ground arith)),
          tt,
        ),
      )
    ]

module _ (lib : Library) (secret : Bytes) where
  pub first-IsRevoked :
      (token : Bytes) (s : Sessions)
      → (verify lib token secret s.now).valid ≡ true
      → (verify lib token secret s.now).jti ≢ []
      → token ≢ []
      → HasExpiry (verify lib token secret s.now).jti (verify lib token secret s.now).exp s.revoked
      → IsRevoked
          (verify lib token secret s.now).jti
          (verify lib token secret s.now).exp
          (post_logout lib secret token true s).revoked
  unfolding post_logout
  first-IsRevoked token s valid some_id some_token expiry =
      let r = verify lib token secret s.now in
      rw (is_empty_lem token some_token, valid, is_empty_lem r.jti some_id)
        (blacklist-IsRevoked r.jti r.exp s.revoked expiry)

module _ (lib : Library) (secret jti : Bytes) (exp : ℕ) where
  logout-IsRevoked :
      (token : Bytes) (is_up : Bool) (s : Sessions)
      → IsRevoked jti exp s.revoked
      → IsRevoked jti exp (post_logout lib secret token is_up s).revoked
  unfolding post_logout
  logout-IsRevoked token is_up s p =
      let result = verify lib token secret s.now in
      elim (Bool-cases
        (not (is_empty token) && (result.valid && (not (is_empty result.jti) && is_up)))) [
          | inl goes ↦ rw goes (blacklist-kept jti result.jti exp result.exp s.revoked p)
          | inr stays ↦ rw stays p
        ]

  Step-IsRevoked :
      {s t : Sessions}
      → Step lib secret s t
      → IsRevoked jti exp s.revoked
      → IsRevoked jti exp t.revoked
  Step-IsRevoked (wait later h) p = p
  Step-IsRevoked (logout {s} token is_up) p = logout-IsRevoked token is_up s p

  pub Reach-IsRevoked :
      {s t : Sessions}
      → Reach lib secret s t
      → IsRevoked jti exp s.revoked
      → IsRevoked jti exp t.revoked
  Reach-IsRevoked here p = p
  Reach-IsRevoked (next step rest) p = Reach-IsRevoked rest (Step-IsRevoked step p)
