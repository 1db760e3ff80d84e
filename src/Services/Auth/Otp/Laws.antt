-- ===== src/Services/Auth/Otp/Laws.antt =====
-- The text of a one-time password.
use cppadmin.Base.{
  ℕ, zero, suc, ◌+◌, ◌-◌, ◌*◌, ◌/◌, ◌%◌, ◌^◌, ◌<◌, ◌≤◌, ◌≡◌, Bytes, [], ◌∷◌, ◌++◌, length,
  replicate, All, ltb, arith, length-append, length-replicate, ◌∙◌, refl, Bool-cases, inl, inr,
}
use cppadmin.Services.Auth.Otp.{decimal, generate_otp, value}

pow_suc : (k : ℕ) → 10 ^ suc k ≡ 10 * 10 ^ k
pow_suc k = omega arith

pow_pos : (k : ℕ) → 0 < 10 ^ k
pow_pos zero = omega arith
pow_pos (suc k) = omega (arith, pow_suc k, pow_pos k)

div-lt : (n k : ℕ) → n < 10 ^ suc k → n / 10 < 10 ^ k
div-lt n k h = omega (arith, pow_suc k)

length-decimal : (k fuel n : ℕ) → n < 10 ^ suc k → k ≤ fuel → length (decimal fuel n) ≤ suc k
unfolding decimal
length-decimal k zero n h le = omega arith
length-decimal zero (suc fuel) n h le = ground (arith, pow_suc 0)
length-decimal (suc k) (suc fuel) n h le =
    let ih = length-decimal k fuel (n / 10) (div-lt n (suc k) h) (omega arith) in
    elim (Bool-cases (ltb n 10)) [
      | inl e ↦ rw e (omega arith)
      | inr e ↦ rw e (omega (arith, length-append (decimal fuel (n / 10)) ((b'0' + n % 10) ∷ [])))
    ]

value-append : (s t : Bytes) (acc : ℕ) → value acc (s ++ t) ≡ value (value acc s) t
unfolding value
value-append [] t acc = refl
value-append (c ∷ s) t acc = value-append s t (acc * 10 + (c - b'0'))

value-decimal : (fuel n : ℕ) → n < 10 ^ suc fuel → value 0 (decimal fuel n) ≡ n
unfolding decimal value
value-decimal zero n h = omega arith
value-decimal (suc fuel) n h =
    let ih = value-decimal fuel (n / 10) (div-lt n (suc fuel) h) in
    elim (Bool-cases (ltb n 10)) [
      | inl e ↦ rw e (omega arith)
      | inr e ↦
          rw (e, value-append (decimal fuel (n / 10)) ((b'0' + n % 10) ∷ []) 0, ih) (omega arith)
    ]

value-replicate : (k : ℕ) (s : Bytes) → value 0 (replicate k b'0' ++ s) ≡ value 0 s
unfolding value
value-replicate zero s = refl
value-replicate (suc k) s = value-replicate k s

-- A text of decimal digits.
abbrev pub IsNumeral : Bytes → Type 0
IsNumeral s = All (λ c. (b'0' ≤ c) × (c ≤ b'9')) s

IsNumeral-append : (s t : Bytes) → IsNumeral s → IsNumeral t → IsNumeral (s ++ t)
IsNumeral-append [] t p q = q
IsNumeral-append (c ∷ s) t (h, p) q = (h, IsNumeral-append s t p q)

decimal-IsNumeral : (fuel n : ℕ) → n < 10 ^ suc fuel → IsNumeral (decimal fuel n)
unfolding decimal
decimal-IsNumeral zero n h = ((omega arith, omega (arith, pow_suc 0)), tt)
decimal-IsNumeral (suc fuel) n h =
    let ih = decimal-IsNumeral fuel (n / 10) (div-lt n (suc fuel) h) in
    elim (Bool-cases (ltb n 10)) [
      | inl e ↦ rw e ((omega arith, ground arith), tt)
      | inr e ↦
          rw e (IsNumeral-append (decimal fuel (n / 10)) _ ih ((omega arith, omega arith), tt))
    ]

replicate-IsNumeral : (k : ℕ) → IsNumeral (replicate k b'0')
replicate-IsNumeral zero = tt
replicate-IsNumeral (suc k) = ((omega arith, omega arith), replicate-IsNumeral k)

-- A one-time password of at least one digit has exactly as many digits as asked for, and spells
-- the random number modulo the power of ten.
pub generate_otp_lem :
    (digits rnd : ℕ)
    → 0 < digits
    → (length (generate_otp digits rnd) ≡ digits)
      × IsNumeral (generate_otp digits rnd)
      × (value 0 (generate_otp digits rnd) ≡ rnd % 10 ^ digits)
unfolding generate_otp
generate_otp_lem zero rnd h = absurd (omega arith)
generate_otp_lem (suc k) rnd h =
    let n = rnd % 10 ^ suc k in
    let small : n < 10 ^ suc k = omega (arith, pow_pos (suc k)) in
    let below : n < 10 ^ suc (suc k) = omega (arith, pow_suc (suc k)) in
    let len = length-decimal k (suc k) n small (omega arith) in
    let digits = decimal (suc k) n in
    let zeros = suc k - length digits in
    (
      omega
          (arith, length-append (replicate zeros b'0') digits, length-replicate {A = ℕ} zeros b'0'),
      IsNumeral-append (replicate zeros b'0') digits (replicate-IsNumeral zeros)
          (decimal-IsNumeral (suc k) n below),
      value-replicate zeros digits ∙ value-decimal (suc k) n below,
    )
