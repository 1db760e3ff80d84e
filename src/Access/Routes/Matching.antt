-- ===== src/Access/Routes/Matching.antt =====
-- `RouteRegistry::pathMatches`, part by part.
use mathlib.Core.List.{append-nil, append_assoc}
use cppadmin.Base.{
  ℕ, ◌++◌, NoByte, NoByte-append, nat_beq_iff, sym, ap, ◌∙◌, Bytes, Bool, true, false, List, [],
  ◌∷◌, ◌&&◌, length, nat_beq, is_empty, ◌==◌, bytes_eq, bytes_beq, bytes_beq_iff, bytes_beq_refl,
  ◌≡◌, ◌⊎◌, ◌↔◌, inl, inr, refl, arith, Bool-cases, if◌then◌else◌, subst,
}
use cppadmin.Access.Routes.{split_from, split, is_wildcard, all_match, path_matches}

-- A pattern matches a path part by part: a part that begins with a brace matches every part, and
-- any part matches itself.
pub data Matches : List Bytes → List Bytes → Type 0 where
  done : Matches [] []
  wildcard : {p x : Bytes} {ps xs : List Bytes} → Matches ps xs → Matches ((b'{' ∷ p) ∷ ps) (x ∷ xs)
  literal : {p : Bytes} {ps xs : List Bytes} → Matches ps xs → Matches (p ∷ ps) (p ∷ xs)

part_sound :
    (p x : Bytes) (rest : Bool)
    → (if is_empty p && is_empty x
        then rest
        else if is_wildcard p
        then rest
        else if p == x
        then rest
        else false)
      ≡ true
    → (rest ≡ true) × ((is_wildcard p ≡ true) ⊎ (p ≡ x))
unfolding bytes_beq
part_sound [] [] rest h = (h, inr refl)
part_sound [] (d ∷ x) rest h = absurd (ground arith)
part_sound (c ∷ p) x rest h = elim (Bool-cases (nat_beq c b'{')) [
  | inl w ↦ (ground arith, inl w)
  | inr w ↦ elim (Bool-cases ((c ∷ p) == x)) [
    | inl e ↦ (ground arith, inr ((bytes_beq_iff (c ∷ p) x).0 e))
    | inr e ↦ absurd (ground arith)
  ]
]

wildcard_part :
    (p x : Bytes) (ps xs : List Bytes)
    → is_wildcard p ≡ true
    → Matches ps xs
    → Matches (p ∷ ps) (x ∷ xs)
wildcard_part [] x ps xs w m = absurd (ground arith)
wildcard_part (c ∷ p) x ps xs w m =
    subst (λ (d : ℕ). Matches ((d ∷ p) ∷ ps) (x ∷ xs)) (sym ((nat_beq_iff c b'{').0 w)) (wildcard m)

all_match_sound :
    (ps xs : List Bytes) → length ps ≡ length xs → all_match ps xs ≡ true → Matches ps xs
unfolding all_match
all_match_sound [] [] e h = done
all_match_sound [] (x ∷ xs) e h = absurd (omega arith)
all_match_sound (p ∷ ps) [] e h = absurd (omega arith)
all_match_sound (p ∷ ps) (x ∷ xs) e h =
    let (rest, head) = part_sound p x (all_match ps xs) h in
    let tail = all_match_sound ps xs (omega arith) rest in
    elim head [
      | inl w ↦ wildcard_part p x ps xs w tail
      | inr e ↦ subst (λ (y : Bytes). Matches (p ∷ ps) (y ∷ xs)) e (literal tail)
    ]

all_match_complete :
    (ps xs : List Bytes) → Matches ps xs → (length ps ≡ length xs) × (all_match ps xs ≡ true)
unfolding all_match
all_match_complete _ _ done = (refl, refl)
all_match_complete (_ ∷ ps) (x ∷ xs) (wildcard m) =
    let (e, h) = all_match_complete ps xs m in (omega arith, ground arith)
all_match_complete (p ∷ ps) (_ ∷ xs) (literal m) =
    let (e, h) = all_match_complete ps xs m in (omega arith, ground (arith, bytes_beq_refl p))

pub path_matches-split :
    (pattern actual : Bytes)
    → (path_matches pattern actual ≡ true) ↔ Matches (split pattern) (split actual)
unfolding path_matches
path_matches-split pattern actual = (
  λ h. all_match_sound (split pattern) (split actual) (ground arith) (ground arith),
  λ m. let (e, h) = all_match_complete (split pattern) (split actual) m in ground arith,
)

-- The parts of a text, between its slashes.
pub data HasParts : Bytes → List Bytes → Type 0 where
  one : {p : Bytes} → NoByte b'/' p → HasParts p (p ∷ [])
  more :
      {p s : Bytes} {ps : List Bytes}
      → NoByte b'/' p
      → HasParts s ps
      → HasParts (p ++ (b'/' ∷ s)) (p ∷ ps)

split_from-HasParts : (cur s : Bytes) → NoByte b'/' cur → HasParts (cur ++ s) (split_from cur s)
unfolding split_from
split_from-HasParts cur [] p = subst (λ t. HasParts t (cur ∷ [])) (sym (append-nil cur)) (one p)
split_from-HasParts cur (c ∷ s) p = elim (Bool-cases (nat_beq c b'/')) [
  | inl slash ↦ rw (slash, (nat_beq_iff c b'/').0 slash) (more p (split_from-HasParts [] s tt))
  | inr other ↦
      let no_slash = NoByte-append b'/' cur (c ∷ []) p (ground arith, tt) in
      rw other (
        subst (λ t. HasParts t (split_from (cur ++ (c ∷ [])) s)) (append_assoc cur (c ∷ []) s)
          (split_from-HasParts (cur ++ (c ∷ [])) s no_slash))
]

split_from-NoByte : (cur p : Bytes) → NoByte b'/' p → split_from cur p ≡ (cur ++ p) ∷ []
unfolding split_from
split_from-NoByte cur [] q = ap (λ t. t ∷ []) (sym (append-nil cur))
split_from-NoByte cur (c ∷ p) (q, qs) =
    let other : nat_beq c b'/' ≡ false = ground arith in
    rw other
      (split_from-NoByte (cur ++ (c ∷ [])) p qs ∙ ap (λ t. t ∷ []) (append_assoc cur (c ∷ []) p))

split_from-append :
    (cur p s : Bytes) → NoByte b'/' p → split_from cur (p ++ (b'/' ∷ s)) ≡ (cur ++ p) ∷ split s
unfolding split_from
split_from-append cur [] s q = ap (λ t. t ∷ split s) (sym (append-nil cur))
split_from-append cur (c ∷ p) s (q, qs) =
    let other : nat_beq c b'/' ≡ false = ground arith in
    rw other (
      split_from-append (cur ++ (c ∷ [])) p s qs
      ∙ ap (λ t. t ∷ split s) (append_assoc cur (c ∷ []) p))

HasParts-split : {s : Bytes} {ps : List Bytes} → HasParts s ps → split s ≡ ps
HasParts-split (one {p} q) = split_from-NoByte [] p q
HasParts-split (more {p} {s} {ps} q rest) =
    split_from-append [] p s q ∙ ap (λ t. p ∷ t) (HasParts-split rest)

-- A path matches a pattern exactly if both have as many parts between their slashes, and each part
-- of the pattern begins with a brace or is the part of the path.
pub path_matches_iff :
    (pattern actual : Bytes)
    → (path_matches pattern actual ≡ true) ↔ (
        (ps : List Bytes) × (xs : List Bytes) × HasParts pattern ps
        × HasParts actual xs
        × Matches ps xs)
path_matches_iff pattern actual = (
  λ h. (
    split pattern,
    split actual,
    split_from-HasParts [] pattern tt,
    split_from-HasParts [] actual tt,
    (path_matches-split pattern actual).0 h,
  ),
  λ (ps, xs, p, x, m).
      (path_matches-split pattern actual).1 (rw (HasParts-split p, HasParts-split x) m),
)

pub Matches-refl : (ps : List Bytes) → Matches ps ps
Matches-refl [] = done
Matches-refl (p ∷ ps) = literal (Matches-refl ps)
