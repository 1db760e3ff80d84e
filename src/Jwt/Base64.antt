-- ===== src/Jwt/Base64.antt =====
-- `base64UrlEncode` and `base64UrlDecode` of include/helpers/JwtHelper.h. OpenSSL's
-- `EVP_DecodeBlock` is the parameter `decode_block`; `none` is its negative result.
pub mod Padding
pub mod RoundTrip
pub mod Decoder
use cppadmin.Base.{
  ℕ, zero, suc, ◌+◌, ◌-◌, ◌*◌, ◌/◌, ◌%◌, Bytes, bytes, List, [], ◌∷◌, ◌++◌, Option, none, some, map,
  nat_beq, length, take, All, ◌<◌, ◌≡◌, replicate, if◌then◌else◌,
}

-- enc[n]
unfoldable pub symbol_at : Bytes → ℕ → ℕ
symbol_at [] n = 0
symbol_at (c ∷ s) zero = c
symbol_at (c ∷ s) (suc n) = symbol_at s n

unfoldable pub enc : ℕ → ℕ
unfolding symbol_at bytes
enc n = symbol_at (bytes "ABCDEFGHIJKLMNOPQRSTUVWXYZabcdefghijklmnopqrstuvwxyz0123456789+/") n

-- `(b >> k) & 0x3f`, with `b` made of disjoint bytes.
abbrev pub sextet : ℕ → ℕ → ℕ
sextet b d = b / d % 64

-- The loop over groups of three bytes, with the padding `=` (61).
unfoldable pub encode_groups : Bytes → Bytes
encode_groups [] = []
encode_groups (x ∷ []) =
    let b = x * 65536 in enc (sextet b 262144) ∷ enc (sextet b 4096) ∷ 61 ∷ 61 ∷ []
encode_groups (x ∷ y ∷ []) =
    let b = x * 65536 + y * 256 in
    enc (sextet b 262144) ∷ enc (sextet b 4096) ∷ enc (sextet b 64) ∷ 61 ∷ []
encode_groups (x ∷ y ∷ z ∷ rest) =
    let b = x * 65536 + y * 256 + z in
    enc (sextet b 262144)
    ∷ enc (sextet b 4096)
    ∷ enc (sextet b 64)
    ∷ enc (sextet b 1)
    ∷ encode_groups rest

-- `+` becomes `-`, and `/` becomes `_`.
unfoldable pub to_url : ℕ → ℕ
to_url c = if nat_beq c b'+' then b'-' else if nat_beq c b'/' then b'_' else c

unfoldable pub from_url : ℕ → ℕ
from_url c = if nat_beq c b'-' then b'+' else if nat_beq c b'_' then b'/' else c

-- `while (!out.empty() && out.back() == '=') out.pop_back();`
unfoldable pub keep_byte : ℕ → Bytes → Bytes
keep_byte c [] = if nat_beq c b'=' then [] else c ∷ []
keep_byte c (d ∷ s) = c ∷ d ∷ s

unfoldable pub drop_padding : Bytes → Bytes
unfolding keep_byte
drop_padding [] = []
drop_padding (c ∷ s) = keep_byte c (drop_padding s)

unfoldable pub base64_url_encode : Bytes → Bytes
unfolding drop_padding encode_groups to_url enc
base64_url_encode xs = drop_padding (map to_url (encode_groups xs))

-- `while (s.size() % 4) s += '=';`, by the remainder of the size.
unfoldable pub padding : ℕ → Bytes
padding zero = []
padding (suc zero) = b'=' ∷ b'=' ∷ b'=' ∷ []
padding (suc (suc zero)) = b'=' ∷ b'=' ∷ []
padding (suc (suc (suc n))) = b'=' ∷ []

abbrev pub is_padding : ℕ → ℕ
is_padding c = if nat_beq c b'=' then 1 else 0

-- How many of the last two bytes are `=`.
unfoldable pub pad_count : Bytes → ℕ
pad_count [] = 0
pad_count (c ∷ []) = is_padding c
pad_count (c ∷ d ∷ []) = is_padding c + is_padding d
pad_count (c ∷ d ∷ e ∷ s) = pad_count (d ∷ e ∷ s)

unfoldable pub padded : Bytes → Bytes
unfolding padding
padded s = s ++ padding (length s % 4)

-- `out.resize(len - pad)`; nothing when the block decoder fails.
abbrev pub resized : ℕ → Option Bytes → Bytes
resized pad none = []
resized pad (some out) = take (length out - pad) out

unfoldable pub base64_url_decode : (Bytes → Option Bytes) → Bytes → Bytes
unfolding padded pad_count from_url
base64_url_decode decode_block text =
    let s = padded (map from_url text) in resized (pad_count s) (decode_block s)

-- What `EVP_DecodeBlock` is documented to do with a padded encoding: each group of four symbols
-- gives three bytes, and the padding counts as zero bits.
abbrev pub DecodesBlocks : (Bytes → Option Bytes) → Type 0
DecodesBlocks decode_block =
    (xs : Bytes)
    → All (λ x. x < 256) xs
    → decode_block (encode_groups xs) ≡ some (xs ++ replicate (pad_count (encode_groups xs)) 0)
