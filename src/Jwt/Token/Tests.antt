-- ===== src/Jwt/Token/Tests.antt =====
-- A signed token, checked in time and with another key.
use cppadmin.Base.{◌≤◌, ◌≡◌, ◌≢◌, ◌⊎◌, ◌↔◌, refl, Bytes, true, [], ◌∷◌, bytes, arith, bytes_beq}
use cppadmin.Jwt.Library.{Object, get, text, number}
use cppadmin.Jwt.Library.Unary.{unary, unary_laws}
use cppadmin.Jwt.Token.{sign, verify, sig_input}
use cppadmin.Jwt.Token.Laws.{IsSigned, verify_sound, verify-sign_iff}

abbrev payload : Object
payload =
    (bytes "sub", text (7 ∷ []))
    ∷ (bytes "jti", text (9 ∷ []))
    ∷ (bytes "email", text (8 ∷ []))
    ∷ (bytes "exp", number 100)
    ∷ (bytes "iat", number 40)
    ∷ []

abbrev token : Bytes
token = sign unary payload (1 ∷ [])

verify-sign_iff_example :
    (((verify unary token (1 ∷ []) 50).valid ≡ true) ↔ (50 ≤ 100))
    × (50 ≤ 100
        → ((verify unary token (1 ∷ []) 50).sub ≡ 7 ∷ [])
          × ((verify unary token (1 ∷ []) 50).exp ≡ 100)
          × ((verify unary token (1 ∷ []) 50).jti ≡ 9 ∷ [])
          × ((verify unary token (1 ∷ []) 50).email ≡ 8 ∷ [])
          × ((verify unary token (1 ∷ []) 50).roles ≡ bytes "[]")
          × ((verify unary token (1 ∷ []) 50).iat ≡ 40))
unfolding get bytes bytes_beq unary
verify-sign_iff_example =
    verify-sign_iff unary unary_laws payload (1 ∷ []) (7 ∷ []) 100 50 refl
      (λ h. absurd (ground arith)) refl (omega arith)

token_valid : (verify unary token (1 ∷ []) 50).valid ≡ true
token_valid = verify-sign_iff_example.0.1 (omega arith)

verify_sound_example :
    IsSigned unary token (1 ∷ []) 50
    × ((verify unary token (1 ∷ []) 50).sub ≢ [])
    × (((verify unary token (1 ∷ []) 50).exp ≡ 0) ⊎ (50 ≤ (verify unary token (1 ∷ []) 50).exp))
verify_sound_example = verify_sound unary token (1 ∷ []) 50 token_valid

heads_differ :
    unary.hmac_sha256 (1 ∷ []) (sig_input unary payload)
    ≢ unary.hmac_sha256 (2 ∷ []) (sig_input unary payload)
unfolding unary
heads_differ h = absurd (ground arith)
