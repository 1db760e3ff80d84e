-- ===== src/Base/Search.antt =====
-- `std::string::find`: a text is cut at the first occurrence of a key.
use Prim.Native.Nat.{ℕ, zero, suc, ◌≤◌}
use mathlib.Core.Path.{◌≡◌, refl, ap, ◌∙◌, sym}
use mathlib.Core.Logic.{◌≢◌, inl, inr}
use mathlib.Core.Bool.{Bool, true, false, ◌&&◌, ◌||◌, not}
use mathlib.Core.Option.{Option, none, some}
use mathlib.Core.List.{[], ◌∷◌, ◌++◌, append_assoc, append-nil}
use native.Mathlib.Omega.{arith}
use cppadmin.Base.Tests.{nat_beq, Bool-cases, if◌then◌else◌}
use cppadmin.Base.Lists.{length, drop, null, length-append}
use cppadmin.Base.Text.{Bytes, starts_with, NoByte}

-- A text in front of the first half.
abbrev pub in_front : Bytes → Option (Bytes × Bytes) → Option (Bytes × Bytes)
in_front p none = none
in_front p (some (a, b)) = some (p ++ a, b)

-- What stands before the first occurrence of the key and what follows it.
unfoldable pub split_on : Bytes → Bytes → Option (Bytes × Bytes)
split_on key [] = if null key then some ([], []) else none
split_on key (c ∷ s) =
    let rest = split_on key s in
    if starts_with (c ∷ s) key then some ([], drop (length key) (c ∷ s)) else in_front (c ∷ []) rest

-- In `s ++ key` the key occurs at the end only.
unfoldable pub is_free : Bytes → Bytes → Bool
is_free key [] = true
is_free key (c ∷ s) = not (starts_with ((c ∷ s) ++ key) key) && is_free key s

-- The texts differ at a place that both have.
unfoldable pub clashes : Bytes → Bytes → Bool
clashes [] key = false
clashes (c ∷ s) [] = false
clashes (c ∷ s) (k ∷ key) = not (nat_beq c k) || clashes s key

-- Whatever follows the text, the key does not start in it.
unfoldable pub never : Bytes → Bytes → Bool
never key [] = true
never key (c ∷ s) = clashes (c ∷ s) key && never key s

starts_with-append :
    (s r key : Bytes) → length key ≤ length s → starts_with (s ++ r) key ≡ starts_with s key
unfolding starts_with
starts_with-append s r [] p = ground arith
starts_with-append [] r (k ∷ key) p = ground arith
starts_with-append (c ∷ s) r (k ∷ key) p = ground (arith, starts_with-append s r key)

starts_with_self : (key r : Bytes) → starts_with (key ++ r) key ≡ true
unfolding starts_with
starts_with_self [] r = ground arith
starts_with_self (k ∷ key) r = ground (arith, starts_with_self key r)

starts_with-clashes : (s r key : Bytes) → clashes s key ≡ true → starts_with (s ++ r) key ≡ false
unfolding starts_with clashes
starts_with-clashes [] r key p = ground arith
starts_with-clashes (c ∷ s) r [] p = ground arith
starts_with-clashes (c ∷ s) r (k ∷ key) p = ground (arith, starts_with-clashes s r key)

starts_with-differs : (k c : ℕ) (key s : Bytes) → c ≢ k → starts_with (c ∷ s) (k ∷ key) ≡ false
unfolding starts_with
starts_with-differs k c key s p = ground arith

pub drop-append : (s r : Bytes) → drop (length s) (s ++ r) ≡ r
drop-append [] r = refl
drop-append (c ∷ s) r = drop-append s r

pub split_on-here : (k : ℕ) (key r : Bytes) → split_on (k ∷ key) (k ∷ key ++ r) ≡ some ([], r)
unfolding split_on
split_on-here k key r =
    rw (starts_with_self (k ∷ key) r) (ap (λ z. some ([], z)) (drop-append key r))

pub in_front-nil : (o : Option (Bytes × Bytes)) → o ≡ in_front [] o
in_front-nil none = refl
in_front-nil (some (a, b)) = refl

pub in_front-in_front :
    (p q : Bytes) (o : Option (Bytes × Bytes)) → in_front p (in_front q o) ≡ in_front (p ++ q) o
in_front-in_front p q none = refl
in_front-in_front p q (some (a, b)) = rw append_assoc

pub split_on-step :
    (k c : ℕ) (key s : Bytes)
    → starts_with (c ∷ s) (k ∷ key) ≡ false
    → split_on (k ∷ key) (c ∷ s) ≡ in_front (c ∷ []) (split_on (k ∷ key) s)
unfolding split_on
split_on-step k c key s p = rw p refl

-- The first occurrence is the one that follows a text that is free of the key.
pub split_on-is_free :
    (k : ℕ) (key s r : Bytes)
    → is_free (k ∷ key) s ≡ true
    → split_on (k ∷ key) (s ++ (k ∷ key ++ r)) ≡ some (s, r)
unfolding is_free
split_on-is_free k key [] r p = split_on-here k key r
split_on-is_free k key (c ∷ s) r p =
    let here =
      starts_with-append ((c ∷ s) ++ (k ∷ key)) r (k ∷ key)
        (omega (arith, length-append s (k ∷ key))) in
    let same = append_assoc (c ∷ s) (k ∷ key) r in
    let no_start : starts_with ((c ∷ s) ++ (k ∷ key)) (k ∷ key) ≡ false = ground arith in
    split_on-step k c key (s ++ (k ∷ key ++ r)) (rw (← same) (here ∙ no_start))
    ∙ ap (in_front (c ∷ [])) (split_on-is_free k key s r (ground arith))

-- The key is found behind the text only.
abbrev pub Skips : Bytes → Bytes → Type 0
Skips key s = (r : Bytes) → split_on key (s ++ r) ≡ in_front s (split_on key r)

pub never-Skips : (k : ℕ) (key s : Bytes) → never (k ∷ key) s ≡ true → Skips (k ∷ key) s
unfolding never
never-Skips k key [] p r = in_front-nil _
never-Skips k key (c ∷ s) p r =
    split_on-step k c key (s ++ r) (starts_with-clashes (c ∷ s) r (k ∷ key) (ground arith))
    ∙ ap (in_front (c ∷ [])) (never-Skips k key s (ground arith) r)
    ∙ in_front-in_front (c ∷ []) s _

-- A text without the first byte of the key.
pub NoByte-Skips : (k : ℕ) (key s : Bytes) → NoByte k s → Skips (k ∷ key) s
NoByte-Skips k key [] p r = in_front-nil _
NoByte-Skips k key (c ∷ s) (p, ps) r =
    split_on-step k c key (s ++ r) (starts_with-differs k c key (s ++ r) p)
    ∙ ap (in_front (c ∷ [])) (NoByte-Skips k key s ps r)
    ∙ in_front-in_front (c ∷ []) s _

pub Skips-append : (key s t : Bytes) → Skips key s → Skips key t → Skips key (s ++ t)
Skips-append key s t f g r =
    ap (split_on key) (append_assoc s t r)
    ∙ f (t ++ r)
    ∙ ap (in_front s) (g r)
    ∙ in_front-in_front s t _

pub Skips-here :
    (k : ℕ) (key s r : Bytes)
    → Skips (k ∷ key) s
    → split_on (k ∷ key) (s ++ (k ∷ key ++ r)) ≡ some (s, r)
Skips-here k key s r f =
    f (k ∷ key ++ r) ∙ rw (split_on-here k key r) (ap (λ z. some (z, r)) (append-nil s))

length-drop : (n : ℕ) (s : Bytes) → length (drop n s) ≤ length s
length-drop zero s = omega arith
length-drop (suc n) [] = omega arith
length-drop (suc n) (c ∷ s) = omega (arith, length-drop n s)

in_front-shorter :
    (c n : ℕ) (o : Option (Bytes × Bytes)) {b : Bytes} (a : Bytes)
    → ((p q : Bytes) → o ≡ some (p, q) → suc (length q) ≤ n)
    → in_front (c ∷ []) o ≡ some (a, b)
    → suc (length b) ≤ n
in_front-shorter c n none a f e = ground arith
in_front-shorter c n (some (p, q)) a f e = ground (arith, f p q refl)

-- What follows a key is shorter than the text.
pub split_on-shorter :
    (k : ℕ) (key s a b : Bytes) → split_on (k ∷ key) s ≡ some (a, b) → suc (length b) ≤ length s
unfolding split_on
split_on-shorter k key [] a b e = ground arith
split_on-shorter k key (c ∷ s) a b e = elim (Bool-cases (starts_with (c ∷ s) (k ∷ key))) [
  | inl here ↦ ground (arith, length-drop (length key) s)
  | inr later ↦
      let tail : suc (length b) ≤ length s =
        in_front-shorter c (length s) (split_on (k ∷ key) s) a
          (λ x y h. split_on-shorter k key s x y h) (sym (split_on-step k c key s later) ∙ e) in
      omega arith
]
