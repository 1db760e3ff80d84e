-- ===== src/Jwt/Library.antt =====
-- What include/helpers/JwtHelper.h takes from OpenSSL and JsonCpp.
pub mod Unary
use cppadmin.Base.{
  ℕ, Bytes, bytes, Option, some, none, bytes_eq, ◌==◌, ◌≡◌, ◌≢◌, ◌<◌, All, [], nat_beq,
  if◌then◌else◌, ◌∷◌, List,
}
use cppadmin.Jwt.Base64.{DecodesBlocks}

-- A member of a JSON object: the tokens hold texts and times. A negative number, and a member that
-- `asString` or `asInt64` refuses by an exception, do not occur in a token that the program signed.
pub data Claim : Type 0 where
  text : Bytes → Claim
  number : ℕ → Claim

-- A `Json::Value` that is an object: its members.
abbrev pub Object : Type 0
Object = List (Bytes × Claim)

unfoldable pub get : Bytes → Object → Option Claim
get k [] = none
get k ((j, v) ∷ o) = if j == k then some v else get k o

-- `FastWriter` adds a newline, which the source strips.
unfoldable pub strip_newline : Bytes → Bytes
strip_newline [] = []
strip_newline (c ∷ []) = if nat_beq c 10 then [] else c ∷ []
strip_newline (c ∷ d ∷ s) = c ∷ strip_newline (d ∷ s)

pub record Library : Type 0 where
  pub hmac_sha256 : Bytes → Bytes → Bytes
  pub decode_block : Bytes → Option Bytes
  pub write : Object → Bytes
  pub parse : Bytes → Option Object
  pub as_string : Claim → Bytes
  pub as_int64 : Claim → ℕ

-- What the source relies on: a MAC and a text are bytes, and the reader gives back an object that
-- the writer wrote. Texts are any bytes and numbers any naturals here; JsonCpp promises this for
-- UTF-8 texts and 64-bit numbers, which the claims are.
pub record IsLawful (lib : Library) : Type 0 where
  pub blocks : DecodesBlocks lib.decode_block
  pub hmac_bytes : (k d : Bytes) → All (λ x. x < 256) (lib.hmac_sha256 k d)
  pub write_bytes : (o : Object) → All (λ x. x < 256) (strip_newline (lib.write o))
  pub write_some : (o : Object) → strip_newline (lib.write o) ≢ []
  pub parse-write :
      (o : Object)
      → (o' : Object) × (lib.parse (strip_newline (lib.write o)) ≡ some o')
        × ((k : Bytes) → get k o' ≡ get k o)
  pub as_string-text : (v : Bytes) → lib.as_string (text v) ≡ v
  pub as_int64-number : (n : ℕ) → lib.as_int64 (number n) ≡ n
