-- ===== src/Storage/Encoding.antt =====
-- `toHex`, `base64`, `uriEncode` and `stripScheme` of include/helpers/Storage.h. A byte of a text is
-- a number below 256.
pub mod Laws
use cppadmin.Base.{
  ℕ, ◌+◌, ◌*◌, ◌/◌, ◌%◌, Bytes, bytes, Bool, true, false, not, ◌&&◌, ◌||◌, leb, nat_beq, List, [],
  ◌∷◌, ◌++◌, none, some, if◌then◌else◌,
}
use cppadmin.Base.Search.{split_on}
use cppadmin.Jwt.Base64.{enc, symbol_at}

-- hx[n] of "0123456789abcdef"
unfoldable pub lower_digit : ℕ → ℕ
unfolding symbol_at bytes
lower_digit n = symbol_at (bytes "0123456789abcdef") n

unfoldable pub to_hex : Bytes → Bytes
unfolding lower_digit
to_hex [] = []
to_hex (c ∷ s) = lower_digit (c / 16) ∷ lower_digit (c % 16) ∷ to_hex s

abbrev sextet : ℕ → ℕ → ℕ
sextet b d = b / d % 64

-- The bytes of a group are disjoint bits of `b`, so that `|` is `+`.
unfoldable pub base64 : Bytes → Bytes
base64 [] = []
base64 (x ∷ []) = enc (sextet (x * 65536) 262144) ∷ enc (sextet (x * 65536) 4096) ∷ b'=' ∷ b'=' ∷ []
base64 (x ∷ y ∷ []) =
    enc (sextet (x * 65536 + y * 256) 262144)
    ∷ enc (sextet (x * 65536 + y * 256) 4096)
    ∷ enc (sextet (x * 65536 + y * 256) 64)
    ∷ b'='
    ∷ []
base64 (x ∷ y ∷ z ∷ rest) =
    enc (sextet (x * 65536 + y * 256 + z) 262144)
    ∷ enc (sextet (x * 65536 + y * 256 + z) 4096)
    ∷ enc (sextet (x * 65536 + y * 256 + z) 64)
    ∷ enc (sextet (x * 65536 + y * 256 + z) 1)
    ∷ base64 rest

abbrev in_range : ℕ → ℕ → ℕ → Bool
in_range lo hi c = leb lo c && leb c hi

abbrev pub is_unreserved : ℕ → Bool
is_unreserved c =
    in_range b'A' b'Z' c
    || (in_range b'a' b'z' c
        || (in_range b'0' b'9' c
            || (nat_beq c b'-' || (nat_beq c b'_' || (nat_beq c b'.' || nat_beq c b'~')))))

-- hx[n] of "0123456789ABCDEF"
unfoldable pub upper_digit : ℕ → ℕ
unfolding symbol_at bytes
upper_digit n = symbol_at (bytes "0123456789ABCDEF") n

unfoldable pub uri_encode : Bool → Bytes → Bytes
unfolding upper_digit
uri_encode encode_slash [] = []
uri_encode encode_slash (c ∷ s) =
    let rest = uri_encode encode_slash s in
    if is_unreserved c
    then c ∷ rest
    else if nat_beq c b'/' && not encode_slash
    then b'/' ∷ rest
    else b'%' ∷ upper_digit (c / 16) ∷ upper_digit (c % 16) ∷ rest

unfoldable pub strip_scheme : Bytes → Bytes
unfolding bytes
strip_scheme e = elim (split_on (bytes "://") e) [ none ↦ e | some (_, rest) ↦ rest ]
