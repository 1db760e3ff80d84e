-- ===== src/Services/Auth/Otp.antt =====
-- `AuthService::generateOtp` of services/AuthService.cc.
pub mod Laws
use cppadmin.Base.{
  ℕ, zero, suc, ◌+◌, ◌-◌, ◌*◌, ◌/◌, ◌%◌, ◌^◌, ◌<◌, ◌≤◌, ◌≡◌, Bytes, List, [], ◌∷◌, ◌++◌, length,
  replicate, All, ltb, if◌then◌else◌, arith, length-append, length-replicate,
}

-- The decimal digits of a number, as `operator<<` prints it; with fuel f it is right for numbers
-- below 10 ^ (f + 1).
unfoldable pub decimal : ℕ → ℕ → Bytes
decimal zero n = (b'0' + n) ∷ []
decimal (suc fuel) n =
    let rest = decimal fuel (n / 10) in
    if ltb n 10 then (b'0' + n) ∷ [] else rest ++ ((b'0' + n % 10) ∷ [])

-- std::setw(width) << std::setfill('0')
abbrev pub pad_left : ℕ → Bytes → Bytes
pad_left width s = replicate (width - length s) b'0' ++ s

-- `rnd` is what `RAND_bytes` wrote, an unsigned number of 32 bits. The power of ten is an `int`, so
-- that `digits` is at most 9; the service asks for 6.
unfoldable pub generate_otp : ℕ → ℕ → Bytes
generate_otp digits rnd = pad_left digits (decimal digits (rnd % 10 ^ digits))

-- The number that a text of digits spells.
unfoldable pub value : ℕ → Bytes → ℕ
value acc [] = acc
value acc (c ∷ s) = value (acc * 10 + (c - b'0')) s
