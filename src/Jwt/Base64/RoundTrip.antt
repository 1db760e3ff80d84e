-- ===== src/Jwt/Base64/RoundTrip.antt =====
-- Decoding what was encoded.
use cppadmin.Base.{
  ℕ, ◌+◌, ◌-◌, ◌*◌, ◌<◌, ◌≡◌, refl, Bytes, [], ◌∷◌, ◌++◌, Option, length, take, replicate, arith,
  ap, ◌∙◌, All, length-append, length-replicate, take-length-append,
}
use cppadmin.Jwt.Base64.{
  enc, sextet, encode_groups, drop_padding, pad_count, padded, base64_url_encode, base64_url_decode,
  DecodesBlocks,
}
use cppadmin.Jwt.Base64.Padding.{
  IsSymbol, enc-IsSymbol, sextet-lt, restored, restored-one, restored-two, restored-four,
}

symbol : (b d : ℕ) → IsSymbol (enc (sextet b d))
symbol b d = enc-IsSymbol (sextet b d) (sextet-lt b d)

restored-encode_groups : (xs : Bytes) → restored (encode_groups xs) ≡ encode_groups xs
unfolding encode_groups
restored-encode_groups [] = unfold drop_padding padded in refl
restored-encode_groups (x ∷ []) =
    let b = x * 65536 in restored-one _ _ (symbol b 262144) (symbol b 4096)
restored-encode_groups (x ∷ y ∷ []) =
    let b = x * 65536 + y * 256 in
    restored-two _ _ _ (symbol b 262144) (symbol b 4096) (symbol b 64)
restored-encode_groups (x ∷ y ∷ z ∷ rest) =
    let b = x * 65536 + y * 256 + z in
    restored-four _ _ _ _ (encode_groups rest) (symbol b 262144) (symbol b 4096) (symbol b 64)
      (symbol b 1)
    ∙ ap
        (λ s.
          enc (sextet b 262144) ∷ enc (sextet b 4096) ∷ enc (sextet b 64) ∷ enc (sextet b 1) ∷ s)
        (restored-encode_groups rest)

take-replicate :
    (xs : Bytes) (n : ℕ) → take (length (xs ++ replicate n 0) - n) (xs ++ replicate n 0) ≡ xs
take-replicate xs n =
    let e : length (xs ++ replicate n 0) - n ≡ length xs =
      omega (arith, length-append xs (replicate n 0), length-replicate {A = ℕ} n 0) in
    rw e (take-length-append xs (replicate n 0))

-- Where the block decoder does what OpenSSL documents, decoding gives back the bytes that were
-- encoded.
pub base64_url_decode-base64_url_encode :
    (decode_block : Bytes → Option Bytes)
    → DecodesBlocks decode_block
    → (xs : Bytes) → All (λ x. x < 256) xs
    → base64_url_decode decode_block (base64_url_encode xs) ≡ xs
unfolding base64_url_decode base64_url_encode
base64_url_decode-base64_url_encode decode_block law xs h =
    rw (restored-encode_groups xs, law xs h) (take-replicate xs (pad_count (encode_groups xs)))
