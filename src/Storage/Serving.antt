-- ===== src/Storage/Serving.antt =====
-- controllers/web/v1/StorageController.cc: the local files behind "/storage". `canonical` stands for
-- `weakly_canonical` of std::filesystem, and `exists` and `is_directory` for its tests.
use mathlib.Core.List.{append_assoc}
use cppadmin.Base.{
  inl, inr, ap, sym, subst, ◌∙◌, nat_beq_iff, Bool-cases, Option-cases, ℕ, Bytes, Bool, true, false,
  not, ◌&&◌, ◌||◌, [], ◌∷◌, ◌++◌, none, some, is_empty, nat_beq, starts_with, if◌then◌else◌, ◌≡◌,
  ◌≢◌, refl, arith, ◌⊎◌,
}
use cppadmin.Base.Search.{split_on, split_on-here}

pub data Reply : Type 0 where
  status_only : ℕ → Reply
  file_response : Bytes → Reply

-- s.back() == c
unfoldable pub ends_in : ℕ → Bytes → Bool
ends_in c [] = false
ends_in c (d ∷ []) = nat_beq d c
ends_in c (d ∷ e ∷ s) = ends_in c (e ∷ s)

abbrev pub contains_dots : Bytes → Bool
contains_dots key = elim (split_on (b'.' ∷ b'.' ∷ []) key) [ none ↦ false | some _ ↦ true ]

abbrev pub with_separator : Bytes → Bytes
with_separator base =
    if not (is_empty base) && not (ends_in b'/' base) then base ++ (b'/' ∷ []) else base

-- `base / key` for a key that is not absolute.
abbrev pub join : Bytes → Bytes → Bytes
join base key = with_separator base ++ key

-- The four tests, in the order of the handler.
abbrev chosen : Bool → Bool → Bool → Bool → Bytes → Reply
chosen is_local bad_key outside missing path =
    if not is_local
    then status_only 404
    else if bad_key
    then status_only 400
    else if outside
    then status_only 403
    else if missing
    then status_only 404
    else file_response path

chosen-file :
    (a b c d : Bool) (p q : Bytes)
    → chosen a b c d p ≡ file_response q
    → ((a ≡ true) × (b ≡ false)) × (((c ≡ false) × (d ≡ false)) × (q ≡ p))
chosen-file false b c d p q e = absurd (ground arith)
chosen-file true true c d p q e = absurd (ground arith)
chosen-file true false true d p q e = absurd (ground arith)
chosen-file true false false true p q e = absurd (ground arith)
chosen-file true false false false p q e = ((refl, refl), ((refl, refl), ground arith))

chosen-status :
    (a b c d : Bool) (p : Bytes) (code : ℕ)
    → chosen a b c d p ≡ status_only code
    → (code ≡ 400) ⊎ ((code ≡ 403) ⊎ (code ≡ 404))
chosen-status false b c d p code e = ground arith
chosen-status true true c d p code e = ground arith
chosen-status true false true d p code e = ground arith
chosen-status true false false true p code e = ground arith
chosen-status true false false false p code e = absurd (ground arith)

some_key : (key : Bytes) → is_empty key ≡ false → key ≢ []
some_key [] p e = absurd (ground arith)
some_key (c ∷ key) p e = absurd (ground arith)

or_false : (a b : Bool) → (a || b) ≡ false → (a ≡ false) × (b ≡ false)
or_false true b e = absurd (ground arith)
or_false false b e = (refl, e)

not-false : (b : Bool) → not b ≡ false → b ≡ true
not-false b e = ground arith

-- What `base / tail` is, where a slash stands between the two.
abbrev pub IsJoined : Bytes → Bytes → Bytes → Type 0
IsJoined base tail whole =
    (whole ≡ base ++ (b'/' ∷ tail))
    ⊎ (((base ≡ []) ⊎ ((b : Bytes) × (base ≡ b ++ (b'/' ∷ [])))) × (whole ≡ base ++ tail))

ends_in_sound : (c : ℕ) (s : Bytes) → ends_in c s ≡ true → (b : Bytes) × (s ≡ b ++ (c ∷ []))
unfolding ends_in
ends_in_sound c [] p = absurd (ground arith)
ends_in_sound c (d ∷ []) p = ([], ap (λ x. x ∷ []) ((nat_beq_iff d c).0 p))
ends_in_sound c (d ∷ e ∷ s) p =
    let (b, same) = ends_in_sound c (e ∷ s) p in (d ∷ b, ap (λ t. d ∷ t) same)

with_separator-IsJoined : (base tail : Bytes) → IsJoined base tail (with_separator base ++ tail)
with_separator-IsJoined [] tail = inr (inl refl, refl)
with_separator-IsJoined (c ∷ s) tail = elim (Bool-cases (ends_in b'/' (c ∷ s))) [
  | inl slash ↦ rw slash (inr (inr (ends_in_sound b'/' (c ∷ s) slash), refl))
  | inr other ↦ rw other (inl (append_assoc (c ∷ s) (b'/' ∷ []) tail))
]

starts_with_sound : (s p : Bytes) → starts_with s p ≡ true → (r : Bytes) × (s ≡ p ++ r)
unfolding starts_with
starts_with_sound s [] h = (s, refl)
starts_with_sound [] (c ∷ p) h = absurd (ground arith)
starts_with_sound (d ∷ s) (c ∷ p) h =
    let (r, same) = starts_with_sound s p (ground arith) in
    let head : d ≡ c = ground arith in (r, ap (λ t. d ∷ t) same ∙ ap (λ x. x ∷ (p ++ r)) head)

-- Wherever the dots stand, they are found.
split_on-dots : (u v : Bytes) → split_on (b'.' ∷ b'.' ∷ []) (u ++ (b'.' ∷ b'.' ∷ v)) ≢ none
unfolding split_on
split_on-dots [] v e = absurd (let found = split_on-here b'.' (b'.' ∷ []) v in ground arith)
split_on-dots (c ∷ u) v e =
    elim (Bool-cases (starts_with (c ∷ u ++ (b'.' ∷ b'.' ∷ v)) (b'.' ∷ b'.' ∷ []))) [
      | inl here ↦ absurd (ground arith)
      | inr later ↦ elim (Option-cases (split_on (b'.' ∷ b'.' ∷ []) (u ++ (b'.' ∷ b'.' ∷ v)))) [
        | inl absent ↦ split_on-dots u v absent
        | inr (found, there) ↦ absurd (ground arith)
      ]
    ]

contains_dots_sound : (key u v : Bytes) → contains_dots key ≡ false → key ≢ u ++ (b'.' ∷ b'.' ∷ v)
contains_dots_sound key u v p e = elim (Option-cases (split_on (b'.' ∷ b'.' ∷ []) key)) [
  | inl absent ↦ split_on-dots u v (ap (split_on (b'.' ∷ b'.' ∷ [])) (sym e) ∙ absent)
  | inr (found, there) ↦ absurd (ground arith)
]

not_absolute : (key s : Bytes) → starts_with key (b'/' ∷ []) ≡ false → key ≢ b'/' ∷ s
unfolding starts_with
not_absolute key s p e = absurd (let slash = ap (λ t. starts_with t (b'/' ∷ [])) e in ground arith)

module _ (canonical : Bytes → Bytes) (exists is_directory : Bytes → Bool) where
  unfoldable pub serve : Bool → Bytes → Bytes → Reply
  unfolding ends_in split_on
  serve is_local base_dir key =
      let path = canonical (join (canonical base_dir) key) in
      chosen is_local (is_empty key || (starts_with key (b'/' ∷ []) || contains_dots key))
        (not (starts_with path (with_separator (canonical base_dir))))
        (not (exists path) || is_directory path) path

  -- A file is only served by the local driver, for a key that is not empty, does not begin with a
  -- slash and nowhere holds two dots, and only the file at the canonical path of the base
  -- directory with the key below it; and that path consists of the canonical base directory, a
  -- slash and something more, exists, and is no directory. Every other request gets 400, 403 or
  -- 404.
  pub serve_sound :
      (is_local : Bool) (base_dir key : Bytes)
      → ((path : Bytes)
          → serve is_local base_dir key ≡ file_response path
          → ((is_local ≡ true) × (key ≢ []))
            × (((s : Bytes) → key ≢ b'/' ∷ s) × ((u v : Bytes) → key ≢ u ++ (b'.' ∷ b'.' ∷ v)))
            × (((whole : Bytes) × IsJoined (canonical base_dir) key whole
                  × (path ≡ canonical whole))
                × ((tail : Bytes) × IsJoined (canonical base_dir) tail path))
            × ((exists path ≡ true) × (is_directory path ≡ false)))
        × ((code : ℕ)
            → serve is_local base_dir key ≡ status_only code
            → (code ≡ 400) ⊎ ((code ≡ 403) ⊎ (code ≡ 404)))
  unfolding serve
  serve_sound is_local base_dir key = (
    λ path e.
        let base = canonical base_dir in
        let ((local, good), ((inside, there), same)) = chosen-file is_local _ _ _ _ path e in
        let (full, rest) = or_false (is_empty key) _ good in
        let (relative, no_dots) = or_false (starts_with key (b'/' ∷ [])) _ rest in
        let (present, no_directory) = or_false (not (exists (canonical (join base key)))) _ there in
        let is_there : exists (canonical (join base key)) ≡ true = not-false _ present in
        let (tail, below) =
          starts_with_sound path (with_separator base) (rw same (not-false _ inside)) in
        (
          (local, some_key key full),
          (λ s. not_absolute key s relative, λ u v. contains_dots_sound key u v no_dots),
          (
            (join base key, with_separator-IsJoined base key, same),
            (tail, subst (IsJoined base tail) (sym below) (with_separator-IsJoined base tail)),
          ),
          (rw same is_there, rw same no_directory),
        ),
    λ code e. chosen-status is_local _ _ _ _ code e,
  )
