-- ===== src/Jwt/Token/Dots.antt =====
-- The dots of a token: base64url has none, so a token is split where it was joined.
use cppadmin.Base.{
  ℕ, ◌≡◌, ◌≢◌, Bytes, [], ◌∷◌, ◌++◌, some, NoByte, arith, map, Option-cases, inl, inr,
}
use cppadmin.Jwt.Base64.{
  enc, sextet, encode_groups, to_url, keep_byte, drop_padding, base64_url_encode,
}
use cppadmin.Jwt.Base64.Padding.{enc-IsSymbol, sextet-lt}
use cppadmin.Jwt.Token.{split_at}

keep_byte-NoByte : (c : ℕ) (s : Bytes) → c ≢ 46 → NoByte 46 s → NoByte 46 (keep_byte c s)
unfolding keep_byte
keep_byte-NoByte c [] h k = ground arith
keep_byte-NoByte c (d ∷ s) h k = (h, k)

drop_padding-NoByte : (s : Bytes) → NoByte 46 s → NoByte 46 (drop_padding s)
unfolding drop_padding
drop_padding-NoByte [] h = tt
drop_padding-NoByte (c ∷ s) (h, k) = keep_byte-NoByte c (drop_padding s) h (drop_padding-NoByte s k)

no_dot : (b d : ℕ) → to_url (enc (sextet b d)) ≢ 46
no_dot b d = (enc-IsSymbol (sextet b d) (sextet-lt b d)).3

pad_no_dot : to_url 61 ≢ 46
unfolding to_url
pad_no_dot = omega arith

encode_groups-NoByte : (xs : Bytes) → NoByte 46 (map to_url (encode_groups xs))
unfolding encode_groups
encode_groups-NoByte [] = tt
encode_groups-NoByte (x ∷ []) = (no_dot _ _, (no_dot _ _, (pad_no_dot, (pad_no_dot, tt))))
encode_groups-NoByte (x ∷ y ∷ []) = (no_dot _ _, (no_dot _ _, (no_dot _ _, (pad_no_dot, tt))))
encode_groups-NoByte (x ∷ y ∷ z ∷ rest) =
    (no_dot _ _, (no_dot _ _, (no_dot _ _, (no_dot _ _, encode_groups-NoByte rest))))

pub base64_url_encode-NoByte : (xs : Bytes) → NoByte 46 (base64_url_encode xs)
unfolding base64_url_encode
base64_url_encode-NoByte xs =
    drop_padding-NoByte (map to_url (encode_groups xs)) (encode_groups-NoByte xs)

pub split_at-append : (b : ℕ) (s t : Bytes) → NoByte b s → split_at b (s ++ (b ∷ t)) ≡ some (s, t)
unfolding split_at
split_at-append b [] t h = ground arith
split_at-append b (c ∷ s) t (h, k) = ground (arith, split_at-append b s t k)

pub split_at-joined :
    (b : ℕ) (s : Bytes) (p : Bytes × Bytes) → split_at b s ≡ some p → p.0 ++ (b ∷ p.1) ≡ s
unfolding split_at
split_at-joined b [] p h = cc
split_at-joined b (c ∷ s) p h = elim (Option-cases (split_at b s)) [
  | inl e ↦ ground arith
  | inr (q, e) ↦ ground (arith, split_at-joined b s q e)
]
