-- ===== src/Templates/Store/Laws.antt =====
-- What the folder of templates may hold, and what the network may decide.
use cppadmin.Base.{
  Bytes, bytes, Bool, true, false, not, ◌||◌, some, ◌≡◌, ◌⊎◌, inl, inr, refl, ◌∙◌, sym, subst,
  arith, Bool-cases, Option-cases, or_true, bytes_beq_refl, is_empty, ◌==◌, bytes_eq, bytes_beq_iff,
  nat_beq,
}
use cppadmin.Error.{Error, app}
use cppadmin.Error.Effect.{Result, ok, err, Effect, throw_if, ◌>>◌}
use cppadmin.Templates.Slug.{is_valid_slug, default_slug}
use cppadmin.Templates.Store.{
  Response, Folder, is_cached, looks_like_html, template_url, saved, write_file, download, ensure,
  is_default_view, get_active_slug, get_active_html, after_ensure, target,
}

-- Every file of the folder has the name of a valid slug and holds a whole page.
abbrev pub IsSound : Folder → Type 0
IsSound folder =
    (slug html : Bytes)
    → folder.file slug ≡ some html
    → (is_valid_slug slug ≡ true) × (looks_like_html html ≡ true)

saved-IsSound :
    (slug html : Bytes) (folder : Folder)
    → is_valid_slug slug ≡ true
    → looks_like_html html ≡ true
    → IsSound folder
    → IsSound (saved slug html folder)
unfolding saved
saved-IsSound slug html folder valid whole sound s h e = elim (Bool-cases (s == slug)) [
  | inl same ↦ (
    subst (λ t. is_valid_slug t ≡ true) (sym ((bytes_beq_iff s slug).0 same)) valid,
    ground arith,
  )
  | inr other ↦ sound s h (ground arith)
]

-- A guard throws, or the chain goes on behind it.
guard-cases :
    (b : Bool) (e : Error) (m : Effect Folder (Unit {0})) (s : Folder)
    → ((throw_if b e >> m) s ≡ (err e, s)) ⊎ ((b ≡ false) × ((throw_if b e >> m) s ≡ m s))
guard-cases true e m s = inl refl
guard-cases false e m s = inr (refl, refl)

write_file-cases :
    (slug html : Bytes) (folder : Folder)
    → ((e : Error) × (write_file slug html folder ≡ (err e, folder)))
      ⊎ (write_file slug html folder ≡ (ok tt, saved slug html folder))
unfolding write_file
write_file-cases slug html folder = elim (Bool-cases folder.is_writable) [
  | inl can ↦ inr (ground arith)
  | inr cannot ↦ inl (app (bytes "Gagal menyimpan template ke cache") 500, ground arith)
]

-- A download is refused and changes nothing, or puts the page under the slug.
download-cases :
    (slug : Bytes) (res : Response) (folder : Folder)
    → ((e : Error) × (download slug res folder ≡ (err e, folder)))
      ⊎ ((download slug res folder ≡ (ok tt, saved slug res.body folder))
          × (looks_like_html res.body ≡ true))
unfolding download
download-cases slug res folder = elim (guard-cases (not (is_empty res.error)) _ _ folder) [
  | inl failed ↦ inl (_, failed)
  | inr (_, e1) ↦ elim (guard-cases (not (nat_beq res.status 200)) _ _ folder) [
    | inl failed ↦ inl (_, e1 ∙ failed)
    | inr (_, e2) ↦ elim (guard-cases (not (looks_like_html res.body)) _ _ folder) [
      | inl failed ↦ inl (_, e1 ∙ (e2 ∙ failed))
      | inr (whole, e3) ↦ elim (write_file-cases slug res.body folder) [
        | inl (e, failed) ↦ inl (e, e1 ∙ (e2 ∙ (e3 ∙ failed)))
        | inr written ↦ inr (e1 ∙ (e2 ∙ (e3 ∙ written)), ground arith)
      ]
    ]
  ]
]

module _ (http : Bytes → Response) where
  -- The outcomes of `ensure`: refused and nothing changed; nothing to do; or downloaded.
  ensure-cases :
      (slug : Bytes) (folder : Folder)
      → ((e : Error) × (ensure http slug folder ≡ (err e, folder)))
        ⊎ (is_valid_slug slug ≡ true)
          × (((ensure http slug folder ≡ (ok tt, folder))
                × ((is_default_view slug || is_cached folder slug) ≡ true))
              ⊎ ((ensure http slug folder
                    ≡ (ok tt, saved slug (http (template_url slug)).body folder))
                  × (looks_like_html (http (template_url slug)).body ≡ true)))
  unfolding ensure
  ensure-cases slug folder = elim (Bool-cases (is_valid_slug slug)) [
    | inr bad ↦ inl (app (bytes "Template tidak dikenali") 400, rw bad refl)
    | inl valid ↦ elim (Bool-cases (is_default_view slug || is_cached folder slug)) [
      | inl there ↦ inr (valid, inl (rw (valid, there) refl, there))
      | inr absent ↦ elim (download-cases slug (http (template_url slug)) folder) [
        | inl (e, failed) ↦ inl (e, rw (valid, absent) failed)
        | inr (loaded, whole) ↦ inr (valid, inr (rw (valid, absent) loaded, whole))
      ]
    ]
  ]

is_cached-saved :
    (slug html : Bytes) (folder : Folder) → is_cached (saved slug html folder) slug ≡ true
unfolding is_cached saved
is_cached-saved slug html folder = let same = bytes_beq_refl slug in ground arith

-- A template that is there stays there.
is_cached-kept :
    (slug html s : Bytes) (folder : Folder)
    → is_cached folder s ≡ true
    → is_cached (saved slug html folder) s ≡ true
unfolding is_cached saved
is_cached-kept slug html s folder p = elim (Bool-cases (s == slug)) [
  | inl same ↦ ground arith
  | inr other ↦ ground arith
]

module _ (http : Bytes → Response) where
  -- What `ensure` promises of a folder.
  abbrev Promise : Bytes → Folder → Result (Unit {0}) × Folder → Type 0
  Promise slug folder after =
      IsSound after.1
      × (((e : Error) → after.0 ≡ err e → after.1 ≡ folder)
          × (after.0 ≡ ok tt
              → (is_valid_slug slug ≡ true)
                × ((is_default_view slug || is_cached after.1 slug) ≡ true)))

  -- Whatever the network answers, `ensure` keeps the folder sound: its files have the names of
  -- valid slugs and hold whole pages. If it throws it has changed nothing, and if it returns the
  -- slug is valid, and is the built-in page or has a file.
  pub ensure-IsSound :
      (slug : Bytes) (folder : Folder)
      → IsSound folder
      → IsSound (ensure http slug folder).1
        × (((e : Error)
              → (ensure http slug folder).0 ≡ err e
              → (ensure http slug folder).1 ≡ folder)
            × ((ensure http slug folder).0 ≡ ok tt
                → (is_valid_slug slug ≡ true)
                  × ((is_default_view slug || is_cached (ensure http slug folder).1 slug) ≡ true)))
  ensure-IsSound slug folder sound = elim (ensure-cases http slug folder) [
    | inl (e, refused) ↦
        subst (Promise slug folder) (sym refused)
          (sound, ((λ e' h. refl), λ h. absurd (ground arith)))
    | inr (valid, inl (same, there)) ↦
        subst (Promise slug folder) (sym same) (sound, ((λ e' h. refl), λ h. (valid, there)))
    | inr (valid, inr (loaded, whole)) ↦
        let html = (http (template_url slug)).body in
        let cached = is_cached-saved slug html folder in
        subst (Promise slug folder) (sym loaded) (
          saved-IsSound slug html folder valid whole sound,
          (
            (λ e' h. absurd (ground arith)),
            λ h. (valid, rw cached (or_true (is_default_view slug))),
          ),
        )
  ]

  ensure-is_cached :
      (slug s : Bytes) (folder : Folder)
      → is_cached folder s ≡ true
      → is_cached (ensure http slug folder).1 s ≡ true
  ensure-is_cached slug s folder p = elim (ensure-cases http slug folder) [
    | inl (e, refused) ↦ rw refused p
    | inr (valid, inl (same, there)) ↦ rw same p
    | inr (valid, inr (loaded, whole)) ↦
        rw loaded (is_cached-kept slug (http (template_url slug)).body s folder p)
  ]

  after_ensure-IsSound :
      (slug : Bytes) (folder : Folder) → IsSound folder → IsSound (after_ensure http slug folder)
  after_ensure-IsSound slug folder sound = elim (Bool-cases (not (is_cached folder slug))) [
    | inl absent ↦ rw absent (ensure-IsSound slug folder sound).0
    | inr there ↦ rw there sound
  ]

  after_ensure-is_cached :
      (slug s : Bytes) (folder : Folder)
      → is_cached folder s ≡ true
      → is_cached (after_ensure http slug folder) s ≡ true
  after_ensure-is_cached slug s folder p = elim (Bool-cases (not (is_cached folder slug))) [
    | inl absent ↦ rw absent (ensure-is_cached slug s folder p)
    | inr there ↦ rw there p
  ]

  is_cached-some :
      (slug : Bytes) (folder : Folder)
      → is_cached folder slug ≡ true
      → (html : Bytes) × (folder.file slug ≡ some html)
  unfolding is_cached
  is_cached-some slug folder p = elim (Option-cases (folder.file slug)) [
    | inl e ↦ absurd (ground arith)
    | inr found ↦ found
  ]

  -- A page is found for the target where the default template is there.
  target-is_cached :
      (slug : Bytes) (folder : Folder)
      → is_cached folder default_slug ≡ true
      → (html : Bytes) × (folder.file (target slug folder) ≡ some html)
  target-is_cached slug folder p = elim (Bool-cases (is_cached folder slug)) [
    | inl there ↦ rw there (is_cached-some slug folder there)
    | inr absent ↦ rw absent (is_cached-some default_slug folder p)
  ]

  -- The page that the site shows for any setting, on a sound folder: the folder stays sound, and
  -- what is shown is a whole page. If the default template is in the folder, a setting that is
  -- not the built-in page gets a page whatever the network answers.
  pub get_active_html-IsSound :
      (raw : Bytes) (folder : Folder)
      → IsSound folder
      → IsSound (get_active_html http raw folder).1
        × (((html : Bytes)
              → (get_active_html http raw folder).0 ≡ some html
              → looks_like_html html ≡ true)
            × (is_default_view (get_active_slug raw) ≡ false
                → is_cached folder default_slug ≡ true
                → (html : Bytes) × ((get_active_html http raw folder).0 ≡ some html)))
  unfolding get_active_html
  get_active_html-IsSound raw folder sound =
      let slug = get_active_slug raw in
      let next = after_ensure-IsSound slug folder sound in
      elim (Bool-cases (is_default_view slug)) [
        | inl built_in ↦
            rw built_in (sound, ((λ html e. absurd (ground arith)), (λ h. absurd (ground arith))))
        | inr other ↦ rw other (
          next,
          (
            (λ html e. (next _ html e).1),
            λ h p. target-is_cached slug _ (after_ensure-is_cached slug default_slug folder p),
          ),
        )
      ]
