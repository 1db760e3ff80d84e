-- ===== src/Templates/Catalog/Pages/Pinned.antt =====
-- Taking the pinned template to the front moves one item and loses none.
use mathlib.Core.List.{Perm}
use mathlib.Core.List.Perm
use cppadmin.Base.{
  ◌≡◌, refl, ap, ◌∙◌, sym, subst, Bytes, true, false, List, [], ◌∷◌, Option, none, some, is_empty,
  length, arith, Bool-cases, Option-cases, any, ◌≢◌, bytes_beq_iff, inl, inr, ◌==◌, bytes_eq,
}
use cppadmin.Templates.Slug.{Item}
use cppadmin.Templates.Catalog.Pages.{taken_out, pinned}

taken_out-here :
    (slug : Bytes) (t : Item) (ts : List Item)
    → (t.slug == slug) ≡ true
    → taken_out slug (t ∷ ts) ≡ some (t, ts)
unfolding taken_out
taken_out-here slug t ts p = rw p refl

abbrev behind : Item → Option (Item × List Item) → Option (Item × List Item)
behind t none = none
behind t (some (found, others)) = some (found, t ∷ others)

taken_out-later :
    (slug : Bytes) (t : Item) (ts : List Item)
    → (t.slug == slug) ≡ false
    → taken_out slug (t ∷ ts) ≡ behind t (taken_out slug ts)
unfolding taken_out
taken_out-later slug t ts p = elim (Option-cases (taken_out slug ts)) [
  | inl e ↦ ground arith
  | inr (f, e) ↦ ground arith
]

-- What is taken out has the slug, and only its place changes.
abbrev IsTakenOut : Bytes → List Item → Option (Item × List Item) → Type 0
IsTakenOut slug items none = (any (λ t. t.slug == slug) items) ≡ false
IsTakenOut slug items (some (found, others)) =
    Perm (found ∷ others) items × ((found.slug == slug) ≡ true)

behind-IsTakenOut :
    (slug : Bytes) (t : Item) (ts : List Item) (o : Option (Item × List Item))
    → (t.slug == slug) ≡ false
    → IsTakenOut slug ts o
    → IsTakenOut slug (t ∷ ts) (behind t o)
behind-IsTakenOut slug t ts none p q = rw (p, q) refl
behind-IsTakenOut slug t ts (some (found, others)) p (perm, q) =
    (Perm.trans (Perm.swap t found others) (Perm.cons t perm), q)

taken_out-IsTakenOut :
    (slug : Bytes) (items : List Item) → IsTakenOut slug items (taken_out slug items)
unfolding taken_out
taken_out-IsTakenOut slug [] = refl
taken_out-IsTakenOut slug (t ∷ ts) = elim (Bool-cases (t.slug == slug)) [
  | inl here ↦
      subst (IsTakenOut slug (t ∷ ts)) (sym (taken_out-here slug t ts here))
        (Perm.refl (t ∷ ts), here)
  | inr other ↦
      subst (IsTakenOut slug (t ∷ ts)) (sym (taken_out-later slug t ts other))
        (behind-IsTakenOut slug t ts _ other (taken_out-IsTakenOut slug ts))
]

-- The slug of the first item.
abbrev pub first_slug : List Item → Option Bytes
first_slug [] = none
first_slug (t ∷ ts) = some t.slug

abbrev put_back : List Item → Option (Item × List Item) → List Item
put_back items none = items
put_back items (some (found, others)) = found ∷ others

abbrev IsPinned : Bytes → List Item → Option (Item × List Item) → Type 0
IsPinned slug items o =
    Perm (put_back items o) items
    × (any (λ t. t.slug == slug) items ≡ true → first_slug (put_back items o) ≡ some slug)

pinned-put_back :
    (slug : Bytes) (items : List Item)
    → is_empty slug ≡ false
    → pinned slug items ≡ put_back items (taken_out slug items)
unfolding pinned
pinned-put_back slug items p = elim (Option-cases (taken_out slug items)) [
  | inl e ↦ ground arith
  | inr (f, e) ↦ ground arith
]

IsTakenOut-IsPinned :
    (slug : Bytes) (items : List Item) (o : Option (Item × List Item))
    → IsTakenOut slug items o
    → IsPinned slug items o
IsTakenOut-IsPinned slug items none p = (Perm.refl items, λ q. absurd (ground arith))
IsTakenOut-IsPinned slug items (some (found, others)) (perm, same) =
    (perm, λ q. ap some ((bytes_beq_iff found.slug slug).0 same))

pub pinned-Perm :
    (slug : Bytes) (items : List Item)
    → Perm (pinned slug items) items
      × (slug ≢ []
          → any (λ t. t.slug == slug) items ≡ true
          → first_slug (pinned slug items) ≡ some slug)
pinned-Perm [] items = (unfold pinned in Perm.refl items, λ p. absurd (p refl))
pinned-Perm (c ∷ s) items =
    let (perm, first) = IsTakenOut-IsPinned (c ∷ s) items _ (taken_out-IsTakenOut (c ∷ s) items) in
    rw (pinned-put_back (c ∷ s) items refl) (perm, λ p q. first q)

abbrev IsAsLong : List Item → Option (Item × List Item) → Type 0
IsAsLong items o = length (put_back items o) ≡ length items

behind-IsAsLong :
    (t : Item) (ts : List Item) (o : Option (Item × List Item))
    → IsAsLong ts o
    → IsAsLong (t ∷ ts) (behind t o)
behind-IsAsLong t ts none p = refl
behind-IsAsLong t ts (some (found, others)) p = omega (arith, p)

taken_out-IsAsLong : (slug : Bytes) (items : List Item) → IsAsLong items (taken_out slug items)
unfolding taken_out
taken_out-IsAsLong slug [] = refl
taken_out-IsAsLong slug (t ∷ ts) = elim (Bool-cases (t.slug == slug)) [
  | inl here ↦ subst (IsAsLong (t ∷ ts)) (sym (taken_out-here slug t ts here)) refl
  | inr other ↦
      subst (IsAsLong (t ∷ ts)) (sym (taken_out-later slug t ts other))
        (behind-IsAsLong t ts _ (taken_out-IsAsLong slug ts))
]

pub length-pinned : (slug : Bytes) (items : List Item) → length (pinned slug items) ≡ length items
length-pinned [] items = unfold pinned in refl
length-pinned (c ∷ s) items =
    ap length (pinned-put_back (c ∷ s) items refl) ∙ taken_out-IsAsLong (c ∷ s) items
