-- ===== src/Storage/Encoding/Laws.antt =====
-- Percent-encoding can be undone, and what it gives cannot end a parameter of an address.
use cppadmin.Base.{
  ℕ, ◌+◌, ◌-◌, ◌*◌, ◌/◌, ◌%◌, ◌<◌, ◌≡◌, refl, ap, ◌∙◌, Bytes, Bool, true, false, not, ◌&&◌, ◌||◌,
  leb, nat_beq, nat_beq_iff, [], ◌∷◌, All, arith, Bool-cases, inl, inr, if◌then◌else◌,
}
use cppadmin.Jwt.Base64.Padding.{holds_below, holds_below-lt}
use cppadmin.Storage.Encoding.{is_unreserved, upper_digit, uri_encode}

-- The value of an upper-case hexadecimal digit.
unfoldable pub digit_value : ℕ → ℕ
digit_value c = if leb b'A' c then c - 55 else c - 48

-- What a server does with a component: the reverse of percent-encoding.
unfoldable pub uri_decode : Bytes → Bytes
unfolding digit_value
uri_decode [] = []
uri_decode (c ∷ []) = c ∷ []
uri_decode (c ∷ d ∷ []) = c ∷ d ∷ []
uri_decode (c ∷ d ∷ e ∷ s) =
    let plain = uri_decode (d ∷ e ∷ s) in
    let coded = uri_decode s in
    if nat_beq c b'%' then (digit_value d * 16 + digit_value e) ∷ coded else c ∷ plain

digits : holds_below (λ n. nat_beq (digit_value (upper_digit n)) n) 16 ≡ true
unfolding holds_below digit_value upper_digit
digits = refl

digit_value-upper_digit : (n : ℕ) → n < 16 → digit_value (upper_digit n) ≡ n
digit_value-upper_digit n p =
    (nat_beq_iff _ _).0
      (holds_below-lt (λ k. nat_beq (digit_value (upper_digit k)) k) 16 n p digits)

uri_decode-percent :
    (x y : ℕ) (s : Bytes)
    → x < 16
    → y < 16
    → uri_decode (b'%' ∷ upper_digit x ∷ upper_digit y ∷ s) ≡ (x * 16 + y) ∷ uri_decode s
unfolding uri_decode
uri_decode-percent x y s p q =
    ap (λ n. (n * 16 + digit_value (upper_digit y)) ∷ uri_decode s) (digit_value-upper_digit x p)
    ∙ ap (λ n. (x * 16 + n) ∷ uri_decode s) (digit_value-upper_digit y q)

uri_decode-plain :
    (c : ℕ) (s : Bytes) → nat_beq c b'%' ≡ false → uri_decode (c ∷ s) ≡ c ∷ uri_decode s
unfolding uri_decode
uri_decode-plain c [] p = refl
uri_decode-plain c (d ∷ []) p = refl
uri_decode-plain c (d ∷ e ∷ s) p = rw p refl

uri_encode-unreserved :
    (b : Bool) (c : ℕ) (s : Bytes)
    → is_unreserved c ≡ true
    → uri_encode b (c ∷ s) ≡ c ∷ uri_encode b s
unfolding uri_encode
uri_encode-unreserved b c s p = rw p refl

uri_encode-slash :
    (b : Bool) (c : ℕ) (s : Bytes)
    → is_unreserved c ≡ false
    → (nat_beq c b'/' && not b) ≡ true
    → uri_encode b (c ∷ s) ≡ b'/' ∷ uri_encode b s
unfolding uri_encode
uri_encode-slash b c s p q = rw (p, q) refl

uri_encode-percent :
    (b : Bool) (c : ℕ) (s : Bytes)
    → is_unreserved c ≡ false
    → (nat_beq c b'/' && not b) ≡ false
    → uri_encode b (c ∷ s) ≡ b'%' ∷ upper_digit (c / 16) ∷ upper_digit (c % 16) ∷ uri_encode b s
unfolding uri_encode
uri_encode-percent b c s p q = rw (p, q) refl

unreserved_no_percent : (c : ℕ) → is_unreserved c ≡ true → nat_beq c b'%' ≡ false
unreserved_no_percent c p = ground arith

-- Decoding a percent-encoded text gives the text back, whether slashes are encoded or kept.
pub uri_decode-uri_encode :
    (encode_slash : Bool) (s : Bytes)
    → All (λ c. c < 256) s
    → uri_decode (uri_encode encode_slash s) ≡ s
uri_decode-uri_encode b [] p = unfold uri_encode uri_decode in refl
uri_decode-uri_encode b (c ∷ s) (p, ps) =
    let rest = uri_decode-uri_encode b s ps in
    elim (Bool-cases (is_unreserved c)) [
      | inl plain ↦
          ap uri_decode (uri_encode-unreserved b c s plain)
          ∙ uri_decode-plain c _ (unreserved_no_percent c plain)
          ∙ ap (λ t. c ∷ t) rest
      | inr reserved ↦ elim (Bool-cases (nat_beq c b'/' && not b)) [
        | inl slash ↦
            let same : b'/' ≡ c = ground (arith, nat_beq_iff c b'/') in
            ap uri_decode (uri_encode-slash b c s reserved slash)
            ∙ uri_decode-plain b'/' _ refl
            ∙ ap (λ t. b'/' ∷ t) rest
            ∙ ap (λ d. d ∷ s) same
        | inr coded ↦
            let same : c / 16 * 16 + c % 16 ≡ c = omega arith in
            ap uri_decode (uri_encode-percent b c s reserved coded)
            ∙ uri_decode-percent (c / 16) (c % 16) _ (omega arith) (omega arith)
            ∙ ap (λ t. (c / 16 * 16 + c % 16) ∷ t) rest
            ∙ ap (λ d. d ∷ s) same
      ]
    ]

-- A byte that stands for itself in an address: unreserved, the percent sign, or a kept slash.
abbrev pub is_uri_byte : Bool → ℕ → Bool
is_uri_byte encode_slash c =
    is_unreserved c || (nat_beq c b'%' || (nat_beq c b'/' && not encode_slash))

unreserved_digits : holds_below (λ n. is_unreserved (upper_digit n)) 16 ≡ true
unfolding holds_below upper_digit
unreserved_digits = refl

upper_digit-uri : (b : Bool) (n : ℕ) → n < 16 → is_uri_byte b (upper_digit n) ≡ true
upper_digit-uri b n p =
    let plain = holds_below-lt (λ k. is_unreserved (upper_digit k)) 16 n p unreserved_digits in
    rw plain refl

-- A percent-encoded text holds nothing but unreserved bytes, percent signs and, where they are
-- kept, slashes: no `&`, `=`, `?`, `#` or space, so that it cannot end a parameter.
pub uri_encode-All :
    (encode_slash : Bool) (s : Bytes)
    → All (λ c. c < 256) s
    → All (λ c. is_uri_byte encode_slash c ≡ true) (uri_encode encode_slash s)
uri_encode-All b [] p = unfold uri_encode in tt
uri_encode-All b (c ∷ s) (p, ps) =
    let rest = uri_encode-All b s ps in
    elim (Bool-cases (is_unreserved c)) [
      | inl plain ↦ rw (uri_encode-unreserved b c s plain) (rw plain refl, rest)
      | inr reserved ↦ elim (Bool-cases (nat_beq c b'/' && not b)) [
        | inl slash ↦ rw (uri_encode-slash b c s reserved slash) (ground arith, rest)
        | inr coded ↦ rw (uri_encode-percent b c s reserved coded) (
          refl,
          (
            upper_digit-uri b (c / 16) (omega arith),
            (upper_digit-uri b (c % 16) (omega arith), rest),
          ),
        )
      ]
    ]
