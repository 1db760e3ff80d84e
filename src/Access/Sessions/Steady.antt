-- ===== src/Access/Sessions/Steady.antt =====
-- A token says the same at any two times at which it is valid.
use cppadmin.Base.{
  ℕ, ◌<◌, ◌≤◌, ◌≡◌, ◌≢◌, refl, Bytes, bytes, true, false, [], ◌∷◌, ◌++◌, Option, none, some, arith,
  Option-cases, Bool-cases, inl, inr, ltb, ◌&&◌, ◌==◌, bytes_eq,
}
use cppadmin.Jwt.Base64.{base64_url_encode, base64_url_decode}
use cppadmin.Jwt.Library.{Library, Object}
use cppadmin.Jwt.Token.{
  VerifyResult, refused, split_at, int64_of, examine, read_payload, check, verify, verify_rest,
  verify_parts,
}

module _ (lib : Library) (secret : Bytes) (n m : ℕ) where
  -- A result at the time `n` that is valid holds at the time `m` too, exactly until it expires.
  abbrev pub IsSteady : VerifyResult → VerifyResult → Type 0
  IsSteady r r' = r.valid ≡ true → r.exp ≢ 0 → (m ≤ r.exp → r' ≡ r) × (r.exp < m → r'.valid ≡ false)

  refused-IsSteady : IsSteady refused refused
  refused-IsSteady h = absurd (ground arith)

  examine-IsSteady : (o : Object) → IsSteady (examine lib o n) (examine lib o m)
  unfolding examine
  examine-IsSteady o =
      elim (Bool-cases
        (ltb 0 (int64_of lib o (bytes "exp")) && ltb (int64_of lib o (bytes "exp")) n)) [
          | inl expired ↦ rw expired (λ h. absurd (ground arith))
          | inr fresh ↦ rw fresh (λ h full. (
            λ p.
                let alive : (ltb 0 (int64_of lib o (bytes "exp"))
                      && ltb (int64_of lib o (bytes "exp")) m)
                    ≡ false =
                  ground arith in
                rw alive refl,
            λ p.
                let dead : (ltb 0 (int64_of lib o (bytes "exp"))
                      && ltb (int64_of lib o (bytes "exp")) m)
                    ≡ true =
                  ground arith in
                rw dead refl,
          ))
        ]

  read_payload-IsSteady : (s : Bytes) → IsSteady (read_payload lib s n) (read_payload lib s m)
  read_payload-IsSteady [] = refused-IsSteady
  read_payload-IsSteady (c ∷ s) = elim (Option-cases (lib.parse (c ∷ s))) [
    | inl e ↦ rw e refused-IsSteady
    | inr (o, e) ↦ rw e (examine-IsSteady o)
  ]

  check-IsSteady :
      (head body sig : Bytes)
      → IsSteady (check lib head body sig secret n) (check lib head body sig secret m)
  check-IsSteady head body sig =
      elim (Bool-cases
        (sig == base64_url_encode (lib.hmac_sha256 secret (head ++ (b'.' ∷ body))))) [
          | inl same ↦ rw same (read_payload-IsSteady (base64_url_decode lib.decode_block body))
          | inr other ↦ rw other refused-IsSteady
        ]

  verify_rest-IsSteady :
      (head : Bytes) (o : Option (Bytes × Bytes))
      → IsSteady (verify_rest lib head o secret n) (verify_rest lib head o secret m)
  verify_rest-IsSteady head none = refused-IsSteady
  verify_rest-IsSteady head (some (body, sig)) = check-IsSteady head body sig

  verify_parts-IsSteady :
      (o : Option (Bytes × Bytes))
      → IsSteady (verify_parts lib o secret n) (verify_parts lib o secret m)
  verify_parts-IsSteady none = refused-IsSteady
  verify_parts-IsSteady (some (head, rest)) = verify_rest-IsSteady head (split_at b'.' rest)

  pub verify-IsSteady :
      (token : Bytes) → IsSteady (verify lib token secret n) (verify lib token secret m)
  unfolding verify
  verify-IsSteady token = verify_parts-IsSteady (split_at b'.' token)
