-- ===== src/Jwt/Base64/Padding.antt =====
-- The alphabet, and the padding that encoding drops and decoding puts back.
use cppadmin.Base.{
  ℕ, zero, suc, ◌%◌, ◌<◌, ◌≡◌, ◌≢◌, refl, Bytes, Bool, true, [], ◌∷◌, ◌++◌, ◌&&◌, not, map, nat_beq,
  length, arith, ap, if◌then◌else◌, false,
}
use cppadmin.Jwt.Base64.{enc, sextet, to_url, from_url, keep_byte, drop_padding, padding, padded}

-- Over a small range, a test of every value.
module _ (p : ℕ → Bool) where
  unfoldable pub holds_below : ℕ → Bool
  holds_below zero = true
  holds_below (suc n) = if p n then holds_below n else false

  pub holds_below-lt : (n x : ℕ) → x < n → holds_below n ≡ true → p x ≡ true
  unfolding holds_below
  holds_below-lt zero x lt h = absurd (omega arith)
  holds_below-lt (suc n) x lt h = ground (arith, holds_below-lt n x)

-- A symbol of the alphabet is no padding, no dot, and survives the change to the URL alphabet.
abbrev good : ℕ → Bool
good n =
    nat_beq (from_url (to_url (enc n))) (enc n)
    && (not (nat_beq (to_url (enc n)) b'=')
        && (not (nat_beq (enc n) b'=') && not (nat_beq (to_url (enc n)) b'.')))

table : holds_below good 64 ≡ true
unfolding holds_below enc to_url from_url
table = refl

abbrev pub IsSymbol : ℕ → Type 0
IsSymbol c = (from_url (to_url c) ≡ c) × (to_url c ≢ 61) × (c ≢ 61) × (to_url c ≢ 46)

pub enc-IsSymbol : (n : ℕ) → n < 64 → IsSymbol (enc n)
enc-IsSymbol n h = ground (arith, holds_below-lt good 64 n h table)

pub sextet-lt : (b d : ℕ) → sextet b d < 64
sextet-lt b d = omega arith

pub keep_byte-symbol : (c : ℕ) (s : Bytes) → c ≢ 61 → keep_byte c s ≡ c ∷ s
unfolding keep_byte
keep_byte-symbol c [] h = ground arith
keep_byte-symbol c (d ∷ s) h = refl

pub keep_byte-padding : keep_byte 61 [] ≡ []
unfolding keep_byte
keep_byte-padding = refl

-- Dropping the padding in the URL alphabet, and coming back.
abbrev pub restored : Bytes → Bytes
restored e = padded (map from_url (drop_padding (map to_url e)))

to_url-padding : to_url 61 ≡ 61
unfolding to_url
to_url-padding = refl

pub restored-one :
    (a b : ℕ) → IsSymbol a → IsSymbol b → restored (a ∷ b ∷ 61 ∷ 61 ∷ []) ≡ a ∷ b ∷ 61 ∷ 61 ∷ []
unfolding drop_padding padded
restored-one a b p q = ground (arith, to_url-padding)

pub restored-two :
    (a b c : ℕ)
    → IsSymbol a
    → IsSymbol b
    → IsSymbol c
    → restored (a ∷ b ∷ c ∷ 61 ∷ []) ≡ a ∷ b ∷ c ∷ 61 ∷ []
unfolding drop_padding padded
restored-two a b c p q r = ground (arith, to_url-padding)

padded-four : (a b c d : ℕ) (s : Bytes) → padded (a ∷ b ∷ c ∷ d ∷ s) ≡ a ∷ b ∷ c ∷ d ∷ padded s
unfolding padded
padded-four a b c d s =
    let same : suc (suc (suc (suc (length s)))) % 4 ≡ length s % 4 = omega arith in
    ap (λ (n : ℕ). a ∷ b ∷ c ∷ d ∷ (s ++ padding n)) same

pub restored-four :
    (a b c d : ℕ) (s : Bytes)
    → IsSymbol a
    → IsSymbol b
    → IsSymbol c
    → IsSymbol d
    → restored (a ∷ b ∷ c ∷ d ∷ s) ≡ a ∷ b ∷ c ∷ d ∷ restored s
restored-four a b c d s p q r t =
    rw (drop_four a b c d s p q r t)
      (rw (p.0, q.0, r.0, t.0) (padded-four a b c d (map from_url (drop_padding (map to_url s)))))
  where
    drop_four :
        (a b c d : ℕ) (s : Bytes)
        → IsSymbol a
        → IsSymbol b
        → IsSymbol c
        → IsSymbol d
        → drop_padding (map to_url (a ∷ b ∷ c ∷ d ∷ s))
          ≡ to_url a ∷ to_url b ∷ to_url c ∷ to_url d ∷ drop_padding (map to_url s)
    drop_four a b c d s p q r t = unfold drop_padding in simp (keep_byte-symbol, p.1, q.1, r.1, t.1)
