-- ===== src/Access/Sessions/Refinement.antt =====
-- The table of revoked tokens refines a map from ids to expiries, in which the first entry stays.
use cppadmin.Base.{
  ℕ, ◌≡◌, refl, ap, sym, ◌∙◌, subst, Bytes, bytes_beq_iff, Bool, true, false, List, [], ◌∷◌, ◌++◌,
  any, Option, none, some, arith, Bool-cases, Option-cases, inl, inr, ltb, ◌||◌, ◌==◌, bytes_eq,
  if◌then◌else◌,
}
use cppadmin.Access.Sessions.Revoked.{any-append}
use cppadmin.Access.Sessions.{blacklist, is_blacklisted}

-- The specification: until when each id is revoked.
abbrev pub Revocations : Type 0
Revocations = Bytes → Option ℕ

unfoldable pub revoke : Bytes → ℕ → Revocations → Revocations
revoke jti exp until k = elim (until k) [
  | some e ↦ some e
  | none ↦ if jti == k then some exp else none
]

abbrev pub is_revoked : ℕ → Option ℕ → Bool
is_revoked now none = false
is_revoked now (some e) = ltb now e

-- What the rows stand for.
unfoldable pub revocations : List (Bytes × ℕ) → Revocations
revocations [] k = none
revocations ((j, e) ∷ rows) k = let rest = revocations rows k in if j == k then some e else rest

-- The primary key: no id has two rows.
abbrev pub IsKeyed : List (Bytes × ℕ) → Type 0
IsKeyed [] = Unit
IsKeyed ((j, e) ∷ rows) = (any (λ r. r.0 == j) rows ≡ false) × IsKeyed rows

revocations-append :
    (jti k : Bytes) (exp : ℕ) (rows : List (Bytes × ℕ))
    → revocations (rows ++ ((jti, exp) ∷ [])) k ≡ revoke jti exp (revocations rows) k
unfolding revocations revoke
revocations-append jti k exp [] = refl
revocations-append jti k exp ((j, e) ∷ rows) = elim (Bool-cases (j == k)) [
  | inl same ↦ ground arith
  | inr other ↦ ground (arith, revocations-append jti k exp rows)
]

revocations-absent :
    (k : Bytes) (rows : List (Bytes × ℕ))
    → any (λ r. r.0 == k) rows ≡ false
    → revocations rows k ≡ none
unfolding revocations
revocations-absent k [] p = refl
revocations-absent k ((j, e) ∷ rows) p = elim (Bool-cases (j == k)) [
  | inl same ↦ absurd (ground arith)
  | inr other ↦ ground (arith, revocations-absent k rows)
]

or_none : (a c : Bool) → c ≡ false → (a || c) ≡ a
or_none true c p = refl
or_none false c p = p

-- The query finds a row exactly if the id is still revoked.
is_blacklisted-revocations :
    (k : Bytes) (now : ℕ) (rows : List (Bytes × ℕ))
    → IsKeyed rows
    → is_blacklisted k now rows ≡ is_revoked now (revocations rows k)
unfolding is_blacklisted revocations
is_blacklisted-revocations k now [] p = refl
is_blacklisted-revocations k now ((j, e) ∷ rows) (p, ps) =
    let rest = is_blacklisted-revocations k now rows ps in
    elim (Bool-cases (j == k)) [
      | inl same ↦
          let gone =
            revocations-absent k rows
              (subst (λ i. any (λ r. r.0 == i) rows ≡ false) ((bytes_beq_iff j k).0 same) p) in
          rw same (or_none (ltb now e) _ (rest ∙ ap (is_revoked now) gone))
      | inr other ↦ rw other rest
    ]

revocations-present :
    (k : Bytes) (rows : List (Bytes × ℕ))
    → any (λ r. r.0 == k) rows ≡ true
    → (e : ℕ) × (revocations rows k ≡ some e)
unfolding revocations
revocations-present k [] p = absurd (ground arith)
revocations-present k ((j, e) ∷ rows) p = elim (Bool-cases (j == k)) [
  | inl same ↦ (e, ground arith)
  | inr other ↦
      let (found, here_is) = revocations-present k rows (ground arith) in (found, ground arith)
]

revoke-present :
    (jti k : Bytes) (exp : ℕ) (rows : List (Bytes × ℕ))
    → any (λ r. r.0 == jti) rows ≡ true
    → revocations rows k ≡ revoke jti exp (revocations rows) k
unfolding revoke
revoke-present jti k exp rows p = elim (Option-cases (revocations rows k)) [
  | inr (e, found) ↦ ground arith
  | inl absent ↦ elim (Bool-cases (jti == k)) [
    | inr other ↦ ground arith
    | inl same ↦
        let (e, found) = revocations-present jti rows p in
        let here_too =
          subst (λ i. revocations rows i ≡ some e) ((bytes_beq_iff jti k).0 same) found in
        absurd (ground arith)
  ]
]

unlike : (jti j : Bytes) → (j == jti) ≡ false → (jti == j) ≡ false
unlike jti j p = elim (Bool-cases (jti == j)) [
  | inr other ↦ other
  | inl same ↦
      absurd
        (let turned = (bytes_beq_iff j jti).1 (sym ((bytes_beq_iff jti j).0 same)) in ground arith)
]

IsKeyed-append :
    (jti : Bytes) (exp : ℕ) (rows : List (Bytes × ℕ))
    → any (λ r. r.0 == jti) rows ≡ false
    → IsKeyed rows
    → IsKeyed (rows ++ ((jti, exp) ∷ []))
IsKeyed-append jti exp [] p q = (refl, tt)
IsKeyed-append jti exp ((j, e) ∷ rows) p (q, qs) = (
  any-append (λ r. r.0 == j) rows ((jti, exp) ∷ []) ∙ rw (q, unlike jti j (ground arith)) refl,
  IsKeyed-append jti exp rows (ground arith) qs,
)

-- Each revocation keeps the primary key of the table, does to the ids of the rows what the
-- specification says, in which an id that is revoked already keeps its expiry, and the query
-- answers as the specification does for every id and time.
pub blacklist-revoke :
    (jti : Bytes) (exp : ℕ) (rows : List (Bytes × ℕ)) (k : Bytes) (now : ℕ)
    → IsKeyed rows
    → IsKeyed (blacklist jti exp rows)
      × ((revocations (blacklist jti exp rows) k ≡ revoke jti exp (revocations rows) k)
          × (is_blacklisted k now (blacklist jti exp rows)
              ≡ is_revoked now (revoke jti exp (revocations rows) k)))
unfolding blacklist
blacklist-revoke jti exp rows k now keyed = elim (Bool-cases (any (λ r. r.0 == jti) rows)) [
  | inl there ↦
      let same = revoke-present jti k exp rows there in
      rw there
        (keyed, (same, is_blacklisted-revocations k now rows keyed ∙ ap (is_revoked now) same))
  | inr absent ↦
      let same = revocations-append jti k exp rows in
      let keyed' = IsKeyed-append jti exp rows absent keyed in
      rw absent
        (keyed', (same, is_blacklisted-revocations k now _ keyed' ∙ ap (is_revoked now) same))
]
