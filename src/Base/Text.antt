-- ===== src/Base/Text.antt =====
-- `std::string` as a list of bytes. `bytes "…"` is a literal of the source; it stays shut in proofs.
use Prim.Native.Nat.{ℕ}
use Prim.Native.Char.{code}
use Prim.Native.String.{String}
use mathlib.Core.Path.{◌≡◌, refl}
use mathlib.Core.Logic.{◌≢◌, ◌↔◌}
use mathlib.Core.Bool.{Bool, true, false, ◌&&◌, not}
use mathlib.Core.List.{List, [], ◌∷◌, ◌++◌}
use native.Mathlib.Omega.{arith}
use cppadmin.Base.Tests.{Comparable, nat_beq}
use cppadmin.Base.Lists.{null, All}

abbrev pub Bytes : Type 0
Bytes = List ℕ

-- The bytes of an ASCII text.
unfoldable pub bytes : String → Bytes
bytes String.[] = []
bytes (String.◌∷◌ c s) = code c ∷ bytes s

unfoldable pub bytes_beq : Bytes → Bytes → Bool
bytes_beq [] [] = true
bytes_beq (a ∷ s) (b ∷ t) = nat_beq a b && bytes_beq s t
bytes_beq _ _ = false

pub bytes_beq_iff : (s t : Bytes) → (bytes_beq s t ≡ true) ↔ (s ≡ t)
unfolding bytes_beq
bytes_beq_iff [] [] = ground arith
bytes_beq_iff (a ∷ s) [] = ground arith
bytes_beq_iff [] (b ∷ t) = ground arith
bytes_beq_iff (a ∷ s) (b ∷ t) = ground (arith, bytes_beq_iff s t)

pub bytes_beq_refl : (s : Bytes) → bytes_beq s s ≡ true
bytes_beq_refl s = (bytes_beq_iff s s).1 refl

instance abbrev pub bytes_eq : Comparable Bytes
bytes_eq = record {
  equals = bytes_beq;
  equals_sound = λ h. (bytes_beq_iff _ _).0 h;
  equals_refl = bytes_beq_refl;
}

-- s.empty()
abbrev pub is_empty : Bytes → Bool
is_empty s = null s

pub is_empty_lem : (s : Bytes) → s ≢ [] → is_empty s ≡ false
is_empty_lem [] p = absurd (p refl)
is_empty_lem (c ∷ s) p = refl

-- s.rfind(prefix, 0) == 0
unfoldable pub starts_with : Bytes → Bytes → Bool
starts_with s [] = true
starts_with [] (p ∷ ps) = false
starts_with (c ∷ s) (p ∷ ps) = nat_beq c p && starts_with s ps

abbrev pub NoByte : ℕ → Bytes → Type 0
NoByte b s = All (λ c. c ≢ b) s

-- s.find(b) == npos
unfoldable pub no_byte : ℕ → Bytes → Bool
no_byte b [] = true
no_byte b (c ∷ s) = not (nat_beq c b) && no_byte b s

pub no_byte_iff : (b : ℕ) (s : Bytes) → (no_byte b s ≡ true) ↔ NoByte b s
unfolding no_byte
no_byte_iff b [] = ground arith
no_byte_iff b (c ∷ s) = ground (arith, no_byte_iff b s)

pub NoByte-append : (b : ℕ) (s t : Bytes) → NoByte b s → NoByte b t → NoByte b (s ++ t)
NoByte-append b [] t p q = q
NoByte-append b (c ∷ s) t (p, ps) q = (p, NoByte-append b s t ps q)
