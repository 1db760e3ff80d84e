-- ===== src/Jwt/Base64/Decoder.antt =====
-- A block decoder with the behaviour that is documented for OpenSSL's.
use cppadmin.Base.{
  ℕ, suc, ◌+◌, ◌*◌, ◌/◌, ◌%◌, ◌<◌, ◌≡◌, ◌≢◌, refl, Bytes, bytes, true, [], ◌∷◌, ◌++◌, Option, some,
  nat_beq, replicate, arith, ap, if◌then◌else◌, All,
}
use cppadmin.Jwt.Base64.{enc, sextet, encode_groups, pad_count, is_padding, DecodesBlocks}
use cppadmin.Jwt.Base64.Padding.{holds_below, holds_below-lt, enc-IsSymbol, sextet-lt}

index_of : Bytes → ℕ → ℕ
index_of [] c = 0
index_of (d ∷ s) c = let rest = index_of s c in if nat_beq c d then 0 else suc rest

unfoldable pub dec : ℕ → ℕ
unfolding index_of bytes
dec c =
    if nat_beq c b'='
    then 0
    else index_of (bytes "ABCDEFGHIJKLMNOPQRSTUVWXYZabcdefghijklmnopqrstuvwxyz0123456789+/") c

unfoldable pub decode_groups : Bytes → Bytes
unfolding dec
decode_groups (a ∷ b ∷ c ∷ d ∷ s) =
    let v = dec a * 262144 + dec b * 4096 + dec c * 64 + dec d in
    v / 65536 % 256 ∷ v / 256 % 256 ∷ v % 256 ∷ decode_groups s
decode_groups _ = []

table : holds_below (λ n. nat_beq (dec (enc n)) n) 64 ≡ true
unfolding holds_below dec enc
table = refl

dec-enc : (b d : ℕ) → dec (enc (sextet b d)) ≡ sextet b d
dec-enc b d =
    ground
      (arith, holds_below-lt (λ n. nat_beq (dec (enc n)) n) 64 (sextet b d) (sextet-lt b d) table)

dec-padding : dec 61 ≡ 0
unfolding dec
dec-padding = refl

pub decode_block : Bytes → Option Bytes
unfolding decode_groups
decode_block s = some (decode_groups s)

-- The four sextets of 24 bits, put together.
sextets :
    (b : ℕ)
    → b < 16777216
    → sextet b 262144 * 262144 + sextet b 4096 * 4096 + sextet b 64 * 64 + sextet b 1 ≡ b
sextets b h = omega arith

bytes_of :
    (x y z v : ℕ)
    → x < 256
    → y < 256
    → z < 256
    → v ≡ x * 65536 + y * 256 + z
    → (v / 65536 % 256 ≡ x) × (v / 256 % 256 ≡ y) × (v % 256 ≡ z)
bytes_of x y z v p q r h = omega arith

value_of :
    (b : ℕ)
    → b < 16777216
    → dec (enc (sextet b 262144)) * 262144
        + dec (enc (sextet b 4096)) * 4096
        + dec (enc (sextet b 64)) * 64
        + dec (enc (sextet b 1))
      ≡ b
value_of b h = rw (dec-enc b 262144, dec-enc b 4096, dec-enc b 64, dec-enc b 1) (sextets b h)

pad_count-four :
    (a b c d : ℕ) (xs : Bytes)
    → c ≢ 61
    → d ≢ 61
    → pad_count (a ∷ b ∷ c ∷ d ∷ encode_groups xs) ≡ pad_count (encode_groups xs)
unfolding pad_count encode_groups
pad_count-four a b c d [] p q = ground arith
pad_count-four a b c d (x ∷ []) p q = refl
pad_count-four a b c d (x ∷ y ∷ []) p q = refl
pad_count-four a b c d (x ∷ y ∷ z ∷ xs) p q = refl

value_one :
    (x : ℕ)
    → x < 256
    → dec (enc (sextet (x * 65536) 262144)) * 262144
        + dec (enc (sextet (x * 65536) 4096)) * 4096
        + 0
        + 0
      ≡ x * 65536 + 0 * 256 + 0
value_one x h = rw (dec-enc (x * 65536) 262144, dec-enc (x * 65536) 4096) (omega arith)

value_two :
    (x y : ℕ)
    → x < 256
    → y < 256
    → dec (enc (sextet (x * 65536 + y * 256) 262144)) * 262144
        + dec (enc (sextet (x * 65536 + y * 256) 4096)) * 4096
        + dec (enc (sextet (x * 65536 + y * 256) 64)) * 64
        + 0
      ≡ x * 65536 + y * 256 + 0
value_two x y h k =
    let b = x * 65536 + y * 256 in rw (dec-enc b 262144, dec-enc b 4096, dec-enc b 64) (omega arith)

decode_groups-encode_groups :
    (xs : Bytes)
    → All (λ x. x < 256) xs
    → decode_groups (encode_groups xs) ≡ xs ++ replicate (pad_count (encode_groups xs)) 0
unfolding encode_groups decode_groups
decode_groups-encode_groups [] h = unfold pad_count in refl
decode_groups-encode_groups (x ∷ []) (p, _) =
    let (f, g, k) = bytes_of x 0 0 _ p (omega arith) (omega arith) (value_one x p) in
    unfold pad_count in cc (f, g, k)
decode_groups-encode_groups (x ∷ y ∷ []) (p, (q, _)) =
    let b = x * 65536 + y * 256 in
    let (f, g, k) = bytes_of x y 0 _ p q (omega arith) (value_two x y p q) in
    let none_there : is_padding (enc (sextet b 64)) ≡ 0 =
      ground (arith, (enc-IsSymbol (sextet b 64) (sextet-lt b 64)).2) in
    unfold pad_count in rw none_there (cc (f, g, k))
decode_groups-encode_groups (x ∷ y ∷ z ∷ rest) (p, (q, (r, h))) =
    let b = x * 65536 + y * 256 + z in
    let e = value_of b (omega arith) in
    let (f, g, k) = bytes_of x y z _ p q r e in
    rw
      (pad_count-four (enc (sextet b 262144)) (enc (sextet b 4096)) (enc (sextet b 64))
        (enc (sextet b 1)) rest (enc-IsSymbol (sextet b 64) (sextet-lt b 64)).2
        (enc-IsSymbol (sextet b 1) (sextet-lt b 1)).2)
      (cc (f, g, k, decode_groups-encode_groups rest h))

pub decode_block-DecodesBlocks : DecodesBlocks decode_block
unfolding decode_block
decode_block-DecodesBlocks xs h = ap some (decode_groups-encode_groups xs h)
