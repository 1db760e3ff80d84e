-- ===== src/Jwt/Token/Laws.antt =====
-- What a token proves, and which tokens are accepted.
use cppadmin.Base.{
  ℕ, ◌≡◌, ◌≢◌, ◌<◌, ◌≤◌, ◌⊎◌, refl, Bytes, bytes, true, [], ◌∷◌, ◌++◌, some, arith, Option-cases,
  Bool-cases, inl, inr, ap, sym, All, ◌∙◌, bytes_beq_iff, bytes_beq_refl, ◌↔◌, bytes_eq, ◌==◌,
}
use cppadmin.Jwt.Base64.{base64_url_encode, base64_url_decode}
use cppadmin.Jwt.Base64.RoundTrip.{base64_url_decode-base64_url_encode}
use cppadmin.Jwt.Library.{Library, IsLawful, Object, get, text, number, strip_newline}
use cppadmin.Jwt.Token.{
  VerifyResult, refused, header, split_at, string_of, int64_of, sig_input, sign, examine,
  read_payload, check, verify,
}
use cppadmin.Jwt.Token.Dots.{base64_url_encode-NoByte, split_at-append, split_at-joined}

append_assoc_dots : (a b c : Bytes) → (a ++ (46 ∷ b)) ++ (46 ∷ c) ≡ a ++ (46 ∷ (b ++ (46 ∷ c)))
append_assoc_dots [] b c = refl
append_assoc_dots (x ∷ a) b c = ap (λ (s : Bytes). x ∷ s) (append_assoc_dots a b c)

module _ (lib : Library) (token secret : Bytes) (now : ℕ) where
  -- A token made of three parts, the third the MAC of the first two under the secret.
  pub record IsSigned : Type 0 where
    pub head : Bytes
    pub body : Bytes
    pub joined :
        token
        ≡ head
          ++ (46
              ∷ (body ++ (46 ∷ base64_url_encode (lib.hmac_sha256 secret (head ++ (46 ∷ body))))))

  -- A result that is valid names a subject and has not expired.
  abbrev pub IsCurrent : VerifyResult → Type 0
  IsCurrent r = r.valid ≡ true → (r.sub ≢ []) × ((r.exp ≡ 0) ⊎ (now ≤ r.exp))

  examine-IsCurrent : (o : Object) → IsCurrent (examine lib o now)
  unfolding examine
  examine-IsCurrent o = ground arith

  read_payload-IsCurrent : (s : Bytes) → IsCurrent (read_payload lib s now)
  read_payload-IsCurrent [] = ground arith
  read_payload-IsCurrent (c ∷ s) = elim (Option-cases (lib.parse (c ∷ s))) [
    | inl e ↦ rw e (ground arith)
    | inr (o, e) ↦ rw e (examine-IsCurrent o)
  ]

  abbrev Accepted : VerifyResult → Type 0
  Accepted r = r.valid ≡ true → IsSigned × IsCurrent r

  check-Accepted :
      (head body sig : Bytes)
      → token ≡ head ++ (46 ∷ (body ++ (46 ∷ sig)))
      → Accepted (check lib head body sig secret now)
  check-Accepted head body sig e =
      elim (Bool-cases (sig == base64_url_encode (lib.hmac_sha256 secret (head ++ (46 ∷ body))))) [
        | inl same ↦ rw same (λ h. (
          record { head = head; body = body; joined = rw (← (bytes_beq_iff _ _).0 same) e },
          read_payload-IsCurrent (base64_url_decode lib.decode_block body),
        ))
        | inr other ↦ rw other (λ h. absurd (ground arith))
      ]

  verify-Accepted : Accepted (verify lib token secret now)
  unfolding verify
  verify-Accepted = elim (Option-cases (split_at 46 token)) [
    | inl e ↦ rw e (λ h. absurd (ground arith))
    | inr ((head, rest), e) ↦ rw e (elim (Option-cases (split_at 46 rest)) [
      | inl f ↦ rw f (λ h. absurd (ground arith))
      | inr ((body, sig), f) ↦ rw f (
          check-Accepted head body sig (
            sym (
              ap (λ (x : Bytes). head ++ (46 ∷ x)) (split_at-joined 46 rest (body, sig) f)
              ∙ split_at-joined 46 token (head, rest) e)))
    ])
  ]

-- A token is valid only if it is signed with the secret, names a subject and has not expired.
pub verify_sound :
    (lib : Library) (token secret : Bytes) (now : ℕ)
    → (verify lib token secret now).valid ≡ true
    → IsSigned lib token secret now
      × ((verify lib token secret now).sub ≢ [])
      × (((verify lib token secret now).exp ≡ 0) ⊎ (now ≤ (verify lib token secret now).exp))
verify_sound lib token secret now h =
    let (signed, current) = verify-Accepted lib token secret now h in
    let (sub, exp) = current h in (signed, sub, exp)

module _ (lib : Library) where
  -- What `verify` sees of a token that starts as `sign` starts it.
  verify-sig_input :
      (payload : Object) (sig secret : Bytes) (now : ℕ)
      → verify lib (sig_input lib payload ++ (46 ∷ sig)) secret now
        ≡ check lib
            (base64_url_encode (strip_newline (lib.write header)))
            (base64_url_encode (strip_newline (lib.write payload)))
            sig
            secret
            now
  unfolding verify sig_input
  verify-sig_input payload sig secret now =
      let head = base64_url_encode (strip_newline (lib.write header)) in
      let body = base64_url_encode (strip_newline (lib.write payload)) in
      rw (append_assoc_dots head body sig) (
        rw (split_at-append 46 head (body ++ (46 ∷ sig)) (base64_url_encode-NoByte _))
          (rw (split_at-append 46 body sig (base64_url_encode-NoByte _)) refl))

  check-signed :
      (head body secret : Bytes) (now : ℕ)
      → check lib head body
          (base64_url_encode (lib.hmac_sha256 secret (head ++ (46 ∷ body))))
          secret
          now
        ≡ read_payload lib (base64_url_decode lib.decode_block body) now
  check-signed head body secret now = rw bytes_beq_refl refl

  check-other :
      (head body sig secret : Bytes) (now : ℕ)
      → sig ≢ base64_url_encode (lib.hmac_sha256 secret (head ++ (46 ∷ body)))
      → check lib head body sig secret now ≡ refused
  check-other head body sig secret now h =
      ground (
        arith,
        bytes_beq_iff sig (base64_url_encode (lib.hmac_sha256 secret (head ++ (46 ∷ body)))),
      )

  read_payload-parse :
      (s : Bytes) (o : Object) (now : ℕ)
      → s ≢ []
      → lib.parse s ≡ some o
      → read_payload lib s now ≡ examine lib o now
  read_payload-parse [] o now h e = absurd (h refl)
  read_payload-parse (c ∷ s) o now h e = rw e refl

module _ (lib : Library) (law : IsLawful lib) where
  examine-get :
      (o o' : Object) (now : ℕ)
      → ((k : Bytes) → get k o' ≡ get k o)
      → examine lib o' now ≡ examine lib o now
  unfolding examine
  examine-get o o' now h = ground (
    arith,
    h (bytes "exp"),
    h (bytes "sub"),
    h (bytes "email"),
    h (bytes "jti"),
    h (bytes "roles"),
    h (bytes "iat"),
  )

  pub verify-sign :
      (payload : Object) (secret : Bytes) (now : ℕ)
      → verify lib (sign lib payload secret) secret now ≡ examine lib payload now
  unfolding sign sig_input
  verify-sign payload secret now =
      let text = strip_newline (lib.write payload) in
      let decoded : base64_url_decode lib.decode_block (base64_url_encode text) ≡ text =
        base64_url_decode-base64_url_encode lib.decode_block law.blocks text
          (law.write_bytes payload) in
      let (o, parsed, same) = law.parse-write payload in
      verify-sig_input lib payload
        (base64_url_encode (lib.hmac_sha256 secret (sig_input lib payload))) secret now
      ∙ (check-signed lib (base64_url_encode (strip_newline (lib.write header)))
            (base64_url_encode text) secret now
          ∙ (ap (λ (x : Bytes). read_payload lib x now) decoded
              ∙ (read_payload-parse lib text o now (law.write_some payload) parsed
                  ∙ examine-get payload o now same)))

  base64_url_encode-injective :
      (xs ys : Bytes)
      → All (λ x. x < 256) xs
      → All (λ x. x < 256) ys
      → base64_url_encode xs ≡ base64_url_encode ys
      → xs ≡ ys
  base64_url_encode-injective xs ys h k e =
      sym (base64_url_decode-base64_url_encode lib.decode_block law.blocks xs h)
      ∙ (ap (base64_url_decode lib.decode_block) e
          ∙ base64_url_decode-base64_url_encode lib.decode_block law.blocks ys k)

  -- Under the laws of the libraries, a token for a named subject with a positive expiry is
  -- accepted by its own key exactly until it expires, and until then gives back the subject,
  -- the expiry, the token id, the email, the roles and the time of issue that were signed; a
  -- missing id or email reads as empty, missing roles as an empty array, a missing time as 0.
  pub verify-sign_iff :
      (payload : Object) (secret sub : Bytes) (exp now : ℕ)
      → get (bytes "sub") payload ≡ some (text sub)
      → sub ≢ []
      → get (bytes "exp") payload ≡ some (number exp)
      → 0 < exp
      → (((verify lib (sign lib payload secret) secret now).valid ≡ true) ↔ (now ≤ exp))
        × (now ≤ exp
            → ((verify lib (sign lib payload secret) secret now).sub ≡ sub)
              × ((verify lib (sign lib payload secret) secret now).exp ≡ exp)
              × ((verify lib (sign lib payload secret) secret now).jti
                  ≡ string_of lib payload (bytes "jti") [])
              × ((verify lib (sign lib payload secret) secret now).email
                  ≡ string_of lib payload (bytes "email") [])
              × ((verify lib (sign lib payload secret) secret now).roles
                  ≡ string_of lib payload (bytes "roles") (bytes "[]"))
              × ((verify lib (sign lib payload secret) secret now).iat
                  ≡ int64_of lib payload (bytes "iat")))
  unfolding examine
  verify-sign_iff payload secret sub exp now s n e p =
      rw (verify-sign payload secret now)
        (ground (arith, law.as_string-text sub, law.as_int64-number exp))

  -- Under the laws of the libraries, a token that was signed with another key is refused,
  -- unless both keys give it the same MAC.
  pub verify-sign_other :
      (payload : Object) (secret other : Bytes) (now : ℕ)
      → lib.hmac_sha256 secret (sig_input lib payload)
        ≢ lib.hmac_sha256 other (sig_input lib payload)
      → verify lib (sign lib payload secret) other now ≡ refused
  unfolding sign sig_input
  verify-sign_other payload secret other now h =
      verify-sig_input lib payload
        (base64_url_encode (lib.hmac_sha256 secret (sig_input lib payload))) other now
      ∙ check-other lib (base64_url_encode (strip_newline (lib.write header)))
          (base64_url_encode (strip_newline (lib.write payload)))
          (base64_url_encode (lib.hmac_sha256 secret (sig_input lib payload))) other now
          (λ e. h (
            base64_url_encode-injective (lib.hmac_sha256 secret (sig_input lib payload))
              (lib.hmac_sha256 other (sig_input lib payload))
              (law.hmac_bytes secret (sig_input lib payload))
              (law.hmac_bytes other (sig_input lib payload)) e))
