-- ===== src/Templates/Slug/Pattern.antt =====
-- The pattern of a slug as a relation, and what a valid slug cannot hold.
use cppadmin.Base.{
  ℕ, Bytes, bytes, Bool, true, false, not, ◌&&◌, [], ◌∷◌, ◌++◌, Option, none, some, nat_beq,
  nat_beq_iff, some_inj, if_some, and_true, subst, ◌≡◌, refl, ap, ◌∙◌, sym, ◌↔◌, inl, inr, arith,
  All, ◌≢◌, Bool-cases, Option-cases, ◌==◌, bytes_eq, bytes_beq_iff,
}
use cppadmin.Templates.Slug.{
  Groups, is_lower, is_digit, is_slug_byte, all_slug_bytes, match_number, match_from, match_slug,
  in_category, or_match, is_valid_slug, default_view,
}

-- `[a-z]+(?:-[a-z]+)*`, or the rest of it where a word has begun.
pub data IsWords : Bool → Bytes → Type 0 where
  done : IsWords false []
  letter :
      {start : Bool} {c : ℕ} {s : Bytes}
      → is_lower c ≡ true
      → IsWords false s
      → IsWords start (c ∷ s)
  dash : {s : Bytes} → IsWords true s → IsWords false (b'-' ∷ s)

abbrev pub IsNumber : Bytes → Type 0
IsNumber s =
    (x : ℕ) × (y : ℕ) × (z : ℕ) × (s ≡ x ∷ y ∷ z ∷ [])
    × (is_digit x ≡ true)
    × (is_digit y ≡ true)
    × (is_digit z ≡ true)

abbrev pub IsSlugName : Bytes → Type 0
IsSlugName s = (s ≢ []) × (all_slug_bytes s ≡ true)

-- The groups spell the slug out and have the shapes of the pattern.
abbrev pub Matches : Bool → Bytes → Groups → Type 0
Matches start s g =
    (s ≡ g.category ++ (b'-' ∷ (g.number ++ (b'-' ∷ g.name))))
    × (IsWords start g.category × (IsNumber g.number × IsSlugName g.name))

-- The number, the dash and the name, as `match_number` finds them.
abbrev IsNumbered : Bytes → Groups → Type 0
IsNumbered s g =
    (g.category ≡ [])
    × ((s ≡ g.number ++ (b'-' ∷ g.name)) × (IsNumber g.number × IsSlugName g.name))

match_number_sound : (s : Bytes) (g : Groups) → match_number s ≡ some g → IsNumbered s g
unfolding match_number
match_number_sound (x ∷ y ∷ z ∷ d ∷ c ∷ name) g e =
    let (test, same) = if_some _ _ g e in
    let (dx, test_y) = and_true (is_digit x) _ test in
    let (dy, test_z) = and_true (is_digit y) _ test_y in
    let (dz, test_d) = and_true (is_digit z) _ test_z in
    let (dd, named) = and_true (nat_beq d b'-') _ test_d in
    subst (IsNumbered (x ∷ y ∷ z ∷ d ∷ c ∷ name)) same (
      refl,
      (
        ap (λ w. x ∷ y ∷ z ∷ w ∷ c ∷ name) ((nat_beq_iff d b'-').0 dd),
        ((x, y, z, refl, dx, dy, dz), (λ h. absurd (ground arith), named)),
      ),
    )
match_number_sound [] g e = absurd (ground arith)
match_number_sound (x ∷ []) g e = absurd (ground arith)
match_number_sound (x ∷ y ∷ []) g e = absurd (ground arith)
match_number_sound (x ∷ y ∷ z ∷ []) g e = absurd (ground arith)
match_number_sound (x ∷ y ∷ z ∷ d ∷ []) g e = absurd (ground arith)

match_number_complete :
    (number name : Bytes)
    → IsNumber number
    → IsSlugName name
    → match_number (number ++ (b'-' ∷ name))
      ≡ some (record { category = []; number = number; name = name })
unfolding match_number
match_number_complete number [] n (p, q) = absurd (p refl)
match_number_complete number (c ∷ name) (x, y, z, e, dx, dy, dz) (p, q) = rw (e, dx, dy, dz, q) refl

in_category-some :
    (c : ℕ) (o : Option Groups) (g : Groups)
    → in_category c o ≡ some g
    → (h : Groups) × (o ≡ some h) × (g ≡ record h { category = c ∷ h.category })
in_category-some c none g e = absurd (ground arith)
in_category-some c (some h) g e = (h, refl, sym (some_inj e))

abbrev follows : Groups → Bytes
follows g = b'-' ∷ (g.number ++ (b'-' ∷ g.name))

-- A letter is no digit.
match_number-letter : (c : ℕ) (s : Bytes) → is_lower c ≡ true → match_number (c ∷ s) ≡ none
unfolding match_number
match_number-letter c [] p = refl
match_number-letter c (y ∷ []) p = refl
match_number-letter c (y ∷ z ∷ []) p = refl
match_number-letter c (y ∷ z ∷ d ∷ []) p = refl
match_number-letter c (y ∷ z ∷ d ∷ e ∷ s) p = ground arith

match_number-IsWords : {s : Bytes} (r : Bytes) → IsWords true s → match_number (s ++ r) ≡ none
match_number-IsWords r (letter {c = c} {s = s} p w) = match_number-letter c (s ++ r) p

match_from-letter :
    (start : Bool) (c : ℕ) (s : Bytes)
    → is_lower c ≡ true
    → match_from start (c ∷ s) ≡ in_category c (match_from false s)
unfolding match_from
match_from-letter start c s p = rw p refl

match_from-dash :
    (s : Bytes)
    → match_from false (b'-' ∷ s) ≡ or_match (match_number s) (in_category b'-' (match_from true s))
unfolding match_from
match_from-dash s = refl

match_from-other :
    (start : Bool) (c : ℕ) (s : Bytes)
    → is_lower c ≡ false
    → (not start && nat_beq c b'-') ≡ false
    → match_from start (c ∷ s) ≡ none
unfolding match_from
match_from-other start c s p q = rw (p, q) refl

match_from_complete :
    {start : Bool} {category : Bytes} (number name : Bytes)
    → IsWords start category
    → IsNumber number
    → IsSlugName name
    → match_from start (category ++ (b'-' ∷ (number ++ (b'-' ∷ name))))
      ≡ some (record { category = category; number = number; name = name })
match_from_complete number name done n m =
    match_from-dash _ ∙ rw (match_number_complete number name n m) refl
match_from_complete number name (letter {start} {c} {s} p w) n m =
    match_from-letter start c _ p ∙ rw (match_from_complete number name w n m) refl
match_from_complete number name (dash {s} w) n m =
    match_from-dash _
    ∙ rw
        (
          match_number-IsWords (b'-' ∷ (number ++ (b'-' ∷ name))) w,
          match_from_complete number name w n m,
        )
        refl

-- At a dash after a letter: the number follows, or another word.
dash_sound :
    (s : Bytes) (g : Groups)
    → ((h : Groups) → match_from true s ≡ some h → Matches true s h)
    → or_match (match_number s) (in_category b'-' (match_from true s)) ≡ some g
    → Matches false (b'-' ∷ s) g
dash_sound s g f e = elim (Option-cases (match_number s)) [
  | inl no_number ↦
      let next = ap (λ o. or_match o (in_category b'-' (match_from true s))) no_number in
      let (h, found, same) = in_category-some b'-' (match_from true s) g (sym next ∙ e) in
      let (spelt, (w, r)) = f h found in
      subst (Matches false (b'-' ∷ s)) (sym same) (ap (λ t. b'-' ∷ t) spelt, (dash w, r))
  | inr (h, number) ↦
      let next = ap (λ o. or_match o (in_category b'-' (match_from true s))) number in
      let same = some_inj (sym next ∙ e) in
      let (no_category, (spelt, r)) = match_number_sound s h number in
      subst (Matches false (b'-' ∷ s)) same (rw no_category (ap (λ t. b'-' ∷ t) spelt, (done, r)))
]

from_dash_sound :
    (start : Bool) (c : ℕ) (s : Bytes) (g : Groups)
    → ((h : Groups) → match_from true s ≡ some h → Matches true s h)
    → (not start && nat_beq c b'-') ≡ true
    → match_from start (c ∷ s) ≡ some g
    → Matches start (c ∷ s) g
from_dash_sound true c s g f p e = absurd (ground arith)
from_dash_sound false c s g f p e =
    subst (λ d. match_from false (d ∷ s) ≡ some g → Matches false (d ∷ s) g)
      (sym ((nat_beq_iff c b'-').0 p)) (λ q. dash_sound s g f (sym (match_from-dash s) ∙ q)) e

none_or : {A : Type 0} (a : A) → none ≢ some a
none_or a e = absurd (ground arith)

match_from_sound :
    (start : Bool) (s : Bytes) (g : Groups) → match_from start s ≡ some g → Matches start s g
match_from_sound start [] g e = absurd (unfold match_from in ground arith)
match_from_sound start (c ∷ s) g e = elim (Bool-cases (is_lower c)) [
  | inl lower ↦
      let (h, found, same) =
        in_category-some c (match_from false s) g (sym (match_from-letter start c s lower) ∙ e) in
      let (spelt, (w, r)) = match_from_sound false s h found in
      subst (Matches start (c ∷ s)) (sym same) (ap (λ t. c ∷ t) spelt, (letter lower w, r))
  | inr other ↦ elim (Bool-cases (not start && nat_beq c b'-')) [
    | inl dashed ↦ from_dash_sound start c s g (match_from_sound true s) dashed e
    | inr stuck ↦ absurd (none_or g (sym (match_from-other start c s other stuck) ∙ e))
  ]
]

-- A slug matches the pattern with these groups exactly if they spell it out: a category of words
-- of lower-case letters between dashes, three digits, and a name of lower-case letters, digits
-- and dashes. So the groups of a slug are unique.
pub match_slug_iff :
    (slug : Bytes) (g : Groups)
    → (match_slug slug ≡ some g) ↔ (
        (slug ≡ g.category ++ (b'-' ∷ (g.number ++ (b'-' ∷ g.name))))
        × (IsWords true g.category × (IsNumber g.number × IsSlugName g.name)))
unfolding match_slug
match_slug_iff slug g = (
  match_from_sound true slug g,
  λ (spelt, (w, (n, m))). rw spelt (match_from_complete g.number g.name w n m),
)

all_slug_bytes_iff : (s : Bytes) → (all_slug_bytes s ≡ true) ↔ All (λ c. is_slug_byte c ≡ true) s
unfolding all_slug_bytes
all_slug_bytes_iff [] = ground arith
all_slug_bytes_iff (c ∷ s) = ground (arith, all_slug_bytes_iff s)

All_append_lem : (P : ℕ → Type 0) (s t : Bytes) → All P s → All P t → All P (s ++ t)
All_append_lem P [] t p q = q
All_append_lem P (c ∷ s) t (p, ps) q = (p, All_append_lem P s t ps q)

is_lower-slug : (c : ℕ) → is_lower c ≡ true → is_slug_byte c ≡ true
is_lower-slug c p = ground arith

is_digit-slug : (c : ℕ) → is_digit c ≡ true → is_slug_byte c ≡ true
is_digit-slug c p = ground arith

IsWords-All : {start : Bool} {s : Bytes} → IsWords start s → All (λ c. is_slug_byte c ≡ true) s
IsWords-All done = tt
IsWords-All (letter {start} {c} {s} p w) = (is_lower-slug c p, IsWords-All w)
IsWords-All (dash w) = (refl, IsWords-All w)

abbrev IsSafe : Bytes → Type 0
IsSafe s = (s ≢ []) × All (λ c. is_slug_byte c ≡ true) s

default-IsSafe : IsSafe default_view
unfolding bytes all_slug_bytes
default-IsSafe = (λ h. absurd (ground arith), (all_slug_bytes_iff default_view).0 refl)

append_cons : (s t : Bytes) (c : ℕ) → s ++ (c ∷ t) ≢ []
append_cons [] t c h = absurd (ground arith)
append_cons (x ∷ s) t c h = absurd (ground arith)

Matches-IsSafe : (s : Bytes) (g : Groups) → Matches true s g → IsSafe s
Matches-IsSafe s g (e, (w, ((x, y, z, number, dx, dy, dz), (some_name, name)))) =
    let digits : All (λ d. is_slug_byte d ≡ true) g.number =
      rw number (is_digit-slug x dx, (is_digit-slug y dy, (is_digit-slug z dz, tt))) in
    rw e (
      append_cons g.category _ b'-',
      All_append_lem _ g.category _ (IsWords-All w)
          (refl, All_append_lem _ g.number _ digits (refl, (all_slug_bytes_iff g.name).0 name)),
    )

-- Each byte of a valid slug is a lower-case letter, a digit or a dash, and there is at least one,
-- so that a path or an address made of it has no slash, dot, percent sign or space of it.
pub is_valid_slug_sound :
    (slug : Bytes) → is_valid_slug slug ≡ true → (slug ≢ []) × All (λ c. is_slug_byte c ≡ true) slug
unfolding is_valid_slug
is_valid_slug_sound slug p = elim (Bool-cases (slug == default_view)) [
  | inl same ↦ subst IsSafe (sym ((bytes_beq_iff slug default_view).0 same)) default-IsSafe
  | inr other ↦ elim (Option-cases (match_slug slug)) [
    | inl none_found ↦ absurd (ground arith)
    | inr (g, found) ↦ Matches-IsSafe slug g ((match_slug_iff slug g).0 found)
  ]
]
