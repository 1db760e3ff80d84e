-- ===== src/Templates/Slug.antt =====
-- `slugRe`, `isValidSlug`, `titleize` and `derive` of include/FeTemplates.h. The pattern is matched
-- from the left: a category has no digit, so its end is the dash before the first digit.
pub mod Pattern
use cppadmin.Base.{
  ℕ, ◌-◌, Bytes, bytes, Bool, true, false, not, ◌&&◌, ◌||◌, List, [], ◌∷◌, ◌++◌, Option, none, some,
  nat_beq, leb, is_empty, ◌==◌, bytes_eq, bytes_beq, if◌then◌else◌,
}

-- `fetpl::Item`
pub record Item : Type 0 where
  pub slug : Bytes
  pub name : Bytes
  pub category : Bytes

-- The groups of a match: category, number and name.
pub record Groups : Type 0 where
  pub category : Bytes
  pub number : Bytes
  pub name : Bytes

abbrev pub is_lower : ℕ → Bool
is_lower c = leb b'a' c && leb c b'z'

abbrev pub is_digit : ℕ → Bool
is_digit c = leb b'0' c && leb c b'9'

-- [a-z0-9-]
abbrev pub is_slug_byte : ℕ → Bool
is_slug_byte c = is_lower c || (is_digit c || nat_beq c b'-')

unfoldable pub all_slug_bytes : Bytes → Bool
all_slug_bytes [] = true
all_slug_bytes (c ∷ s) = is_slug_byte c && all_slug_bytes s

-- ([0-9]{3})-([a-z0-9-]+)$
unfoldable pub match_number : Bytes → Option Groups
unfolding all_slug_bytes
match_number (x ∷ y ∷ z ∷ d ∷ c ∷ name) =
    if is_digit x && (is_digit y && (is_digit z && (nat_beq d b'-' && all_slug_bytes (c ∷ name))))
    then some (record { category = []; number = x ∷ y ∷ z ∷ []; name = c ∷ name })
    else none
match_number _ = none

abbrev pub in_category : ℕ → Option Groups → Option Groups
in_category c none = none
in_category c (some g) = some (record g { category = c ∷ g.category })

abbrev pub or_match : Option Groups → Option Groups → Option Groups
or_match none o = o
or_match (some g) o = some g

-- `[a-z]+(?:-[a-z]+)*-`, and then the rest of the pattern. The flag says that a letter has to come.
unfoldable pub match_from : Bool → Bytes → Option Groups
unfolding match_number
match_from start [] = none
match_from start (c ∷ s) =
    let inside = match_from false s in
    let next = match_from true s in
    if is_lower c
    then in_category c inside
    else if not start && nat_beq c b'-'
    then or_match (match_number s) (in_category c next)
    else none

unfoldable pub match_slug : Bytes → Option Groups
unfolding match_from
match_slug s = match_from true s

-- kDefaultView
abbrev pub default_view : Bytes
default_view = bytes "default"

-- kDefault
abbrev pub default_slug : Bytes
default_slug = bytes "agency-consulting-002-creative-agency"

abbrev pub is_match : Option Groups → Bool
is_match none = false
is_match (some g) = true

unfoldable pub is_valid_slug : Bytes → Bool
unfolding match_slug
is_valid_slug slug =
    if is_empty slug
    then false
    else if slug == default_view
    then true
    else is_match (match_slug slug)

-- std::toupper
abbrev pub to_upper : ℕ → ℕ
to_upper c = if is_lower c then c - 32 else c

unfoldable pub ends_with_space : Bytes → Bool
ends_with_space [] = false
ends_with_space (c ∷ []) = nat_beq c b' '
ends_with_space (c ∷ d ∷ s) = ends_with_space (d ∷ s)

-- The loop of `titleize`, with `atWordStart` and what `out` holds.
unfoldable pub titleize_from : Bool → Bytes → Bytes → Bytes
unfolding ends_with_space
titleize_from start out [] = out
titleize_from start out (c ∷ s) =
    if nat_beq c b'-'
    then titleize_from true
        (if not (is_empty out) && not (ends_with_space out) then out ++ (b' ' ∷ []) else out) s
    else titleize_from false (out ++ ((if start then to_upper c else c) ∷ [])) s

-- `pop_back`
unfoldable pub pop_space : Bytes → Bytes
pop_space [] = []
pop_space (c ∷ []) = if nat_beq c b' ' then [] else c ∷ []
pop_space (c ∷ d ∷ s) = c ∷ pop_space (d ∷ s)

unfoldable pub titleize : Bytes → Bytes
unfolding titleize_from pop_space
titleize value = pop_space (titleize_from true [] value)

unfoldable pub derive : Bytes → Item
unfolding match_slug titleize
derive slug = elim (match_slug slug) [
  | none ↦ record { slug = slug; name = titleize slug; category = bytes "Other" }
  | some g ↦ record { slug = slug; name = titleize g.name; category = titleize g.category }
]
