-- ===== src/Services/Bcrypt.antt =====
-- vendor/bcrypt/bcrypt.h: a password hash on top of the C library's `crypt_r`.
use cppadmin.Base.{ℕ, Bytes, Bool, true, false, ◌≡◌, ◌≢◌, [], ◌∷◌, bytes_beq, bytes_beq_refl, arith}

-- The salt that `hash` draws is an argument of it. A failure of `crypt_r` is not modelled.
pub record Bcrypt : Type 0 where
  pub hash : ℕ → Bytes → Bytes → Bytes
  pub verify : Bytes → Bytes → Bool

-- A hash is a text that is not empty and that verifies the password it was made of.
pub record IsBcrypt (bc : Bcrypt) : Type 0 where
  pub verify-hash :
      (rounds : ℕ) (salt password : Bytes)
      → bc.verify password (bc.hash rounds salt password) ≡ true
  pub hash_some : (rounds : ℕ) (salt password : Bytes) → bc.hash rounds salt password ≢ []

-- `int rounds = 10`
abbrev pub default_rounds : ℕ
default_rounds = 10

-- A hash for the examples: the password after a mark.
abbrev pub is_marked : Bytes → Bytes → Bool
is_marked password [] = false
is_marked password (mark ∷ stored) = bytes_beq password stored

abbrev pub marking : Bcrypt
marking = record { hash = λ rounds salt password. 36 ∷ password; verify = is_marked }

pub marking_laws : IsBcrypt marking
marking_laws = record {
  verify-hash = λ rounds salt password. bytes_beq_refl password;
  hash_some = λ rounds salt password h. absurd (ground arith);
}
