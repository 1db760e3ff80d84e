-- ===== src/Jwt/Token.antt =====
-- `sign` and `verify` of include/helpers/JwtHelper.h.
pub mod Dots
pub mod Laws
mod Tests
use cppadmin.Base.{
  ℕ, ◌<◌, Bytes, bytes, Bool, true, false, List, [], ◌∷◌, ◌++◌, Option, none, some, ltb, nat_beq,
  is_empty, if◌then◌else◌, not, ◌&&◌, ◌==◌, bytes_eq,
}
use cppadmin.Jwt.Base64.{base64_url_encode, base64_url_decode}
use cppadmin.Jwt.Library.{Library, Object, get, Claim, text, number, strip_newline}

pub record VerifyResult : Type 0 where
  pub valid : Bool
  pub sub : Bytes
  pub email : Bytes
  pub jti : Bytes
  pub roles : Bytes
  pub exp : ℕ
  pub iat : ℕ

-- `VerifyResult r;`
abbrev pub refused : VerifyResult
refused = record { valid = false; sub = []; email = []; jti = []; roles = []; exp = 0; iat = 0 }

abbrev pub header : Object
header = (bytes "alg", text (bytes "HS256")) ∷ (bytes "typ", text (bytes "JWT")) ∷ []

-- The text before the first `b`, and the text after it.
unfoldable pub split_at : ℕ → Bytes → Option (Bytes × Bytes)
split_at b [] = none
split_at b (c ∷ s) =
    let rest = split_at b s in
    if nat_beq c b then some ([], s) else (elim rest [ none ↦ none | some p ↦ some (c ∷ p.0, p.1) ])

module _ (lib : Library) where
  -- payload.get(key, fallback).asString()
  abbrev pub string_of : Object → Bytes → Bytes → Bytes
  string_of o k fallback = elim (get k o) [ none ↦ fallback | some c ↦ lib.as_string c ]

  -- payload.get(key, 0).asInt64()
  abbrev pub int64_of : Object → Bytes → ℕ
  int64_of o k = elim (get k o) [ none ↦ 0 | some c ↦ lib.as_int64 c ]

  unfoldable pub sig_input : Object → Bytes
  sig_input payload =
      base64_url_encode (strip_newline (lib.write header))
      ++ (b'.' ∷ base64_url_encode (strip_newline (lib.write payload)))

  unfoldable pub sign : Object → Bytes → Bytes
  sign payload secret =
      sig_input payload ++ (b'.' ∷ base64_url_encode (lib.hmac_sha256 secret (sig_input payload)))

  -- The expiry test and the claims, once the payload is read.
  unfoldable pub examine : Object → ℕ → VerifyResult
  examine payload now =
      let exp = int64_of payload (bytes "exp") in
      let sub = string_of payload (bytes "sub") [] in
      if ltb 0 exp && ltb exp now then record refused { exp = exp } else record {
        valid = not (is_empty sub);
        sub = sub;
        email = string_of payload (bytes "email") [];
        jti = string_of payload (bytes "jti") [];
        roles = string_of payload (bytes "roles") (bytes "[]");
        exp = exp;
        iat = int64_of payload (bytes "iat");
      }

  abbrev pub read_payload : Bytes → ℕ → VerifyResult
  read_payload payload_bytes now =
      if is_empty payload_bytes
      then refused
      else (elim (lib.parse payload_bytes) [ none ↦ refused | some o ↦ examine o now ])

  abbrev pub check : Bytes → Bytes → Bytes → Bytes → ℕ → VerifyResult
  check head body sig secret now =
      if sig == base64_url_encode (lib.hmac_sha256 secret (head ++ (b'.' ∷ body)))
      then read_payload (base64_url_decode lib.decode_block body) now
      else refused

  abbrev pub verify_rest : Bytes → Option (Bytes × Bytes) → Bytes → ℕ → VerifyResult
  verify_rest head none secret now = refused
  verify_rest head (some (body, sig)) secret now = check head body sig secret now

  abbrev pub verify_parts : Option (Bytes × Bytes) → Bytes → ℕ → VerifyResult
  verify_parts none secret now = refused
  verify_parts (some (head, rest)) secret now = verify_rest head (split_at b'.' rest) secret now

  unfoldable pub verify : Bytes → Bytes → ℕ → VerifyResult
  verify token secret now = verify_parts (split_at b'.' token) secret now
