-- ===== src/Services/Settings/Laws.antt =====
-- How old the settings that are read may be.
use cppadmin.Base.{
  sym, subst, true, if◌then◌else◌, ℕ, ◌-◌, ◌<◌, ◌≡◌, ◌⊎◌, inl, inr, refl, ap, ◌∙◌, Bytes, Bool,
  List, [], ◌∷◌, Option, none, some, arith, ltb, Bool-cases,
}
use cppadmin.Error.{Error}
use cppadmin.Error.Effect.{Result, ok}
use cppadmin.Error.Effect.Laws.{bind-ok}
use cppadmin.Database.{Database}
use cppadmin.Database.Schema.{Row, settings}
use cppadmin.Database.Schema
use cppadmin.Models.Field.{value_of}
use cppadmin.Models.Settings.{Settings, from_row, update_columns, update_args}
use cppadmin.Services.Settings.{
  SettingUpdateInput, State, ttl_sec, find_first, find_cached, remember, update, update_first,
  check_template, save, saved, edited, invalidate,
}

module _ (db : Database) (first_row : db.State → Option (List Row)) (is_valid_slug : Bytes → Bool)
    (ensure : Bytes → Option Error) where
  -- The settings that the database has now.
  abbrev pub IsStored : Settings → db.State → Type 0
  IsStored v d = (r : Row) × (rows : List Row) × (first_row d ≡ some (r ∷ rows)) × (v ≡ from_row r)

  remember-IsStored :
      (now : ℕ) (s : State db first_row is_valid_slug ensure) (o : Option (List Row)) (v : Settings)
      → first_row s.database ≡ o
      → (remember db first_row is_valid_slug ensure now o s).0 ≡ ok v
      → IsStored v s.database
  remember-IsStored now s none v e h = absurd (ground arith)
  remember-IsStored now s (some []) v e h = absurd (ground arith)
  remember-IsStored now s (some (r ∷ rows)) v e h = (r, rows, e, ground arith)

  find_cached-age :
      (now : ℕ) (s : State db first_row is_valid_slug ensure) (c : Option Settings) (v : Settings)
      → s.cache ≡ c
      → (find_cached db first_row is_valid_slug ensure now c s).0 ≡ ok v
      → IsStored v s.database ⊎ ((s.cache ≡ some v) × (now - s.cache_at < ttl_sec))
  find_cached-age now s none v e h = inl (remember-IsStored now s (first_row s.database) v refl h)
  find_cached-age now s (some c) v e h = elim (Bool-cases (ltb (now - s.cache_at) ttl_sec)) [
    | inl young ↦ inr (ground arith, ground arith)
    | inr old ↦ inl (remember-IsStored now s (first_row s.database) v refl (ground arith))
  ]

  -- The settings that are read are those of the database now, or those of a cache that is less
  -- than a minute old.
  pub find_first-age :
      (now : ℕ) (s : State db first_row is_valid_slug ensure) (v : Settings)
      → (find_first db first_row is_valid_slug ensure now s).0 ≡ ok v
      → IsStored v s.database ⊎ ((s.cache ≡ some v) × (now - s.cache_at < 60))
  unfolding find_first
  find_first-age now s v h = find_cached-age now s s.cache v refl h

  update_first-cache :
      (input : SettingUpdateInput) (actor : Bytes) (o : Option (List Row))
      (s : State db first_row is_valid_slug ensure) (v : Settings)
      → (update_first db first_row is_valid_slug ensure input actor o s).0 ≡ ok v
      → (update_first db first_row is_valid_slug ensure input actor o s).1.cache ≡ none
  unfolding invalidate
  update_first-cache input actor none s v h = absurd (ground arith)
  update_first-cache input actor (some []) s v h = absurd (ground arith)
  update_first-cache input actor (some (r ∷ rows)) s v h =
      let w = edited input actor (from_row r) in
      let (t1, s1, e1, h1, f1) =
        bind-ok (λ _. save db first_row is_valid_slug ensure w) v
          (check_template db first_row is_valid_slug ensure input.fe_template) s h in
      let (t2, s2, e2, h2, f2) =
        bind-ok
          (λ _ (t : State db first_row is_valid_slug ensure).
            (ok w, invalidate db first_row is_valid_slug ensure t))
          v
          (λ (t : State db first_row is_valid_slug ensure).
            saved db first_row is_valid_slug ensure
              (db.update settings (update_columns w) (update_args w) (value_of w.id) t.database) t)
          s1 h1 in
      ap (λ (p : Result Settings × State db first_row is_valid_slug ensure). p.1.cache) (f1 ∙ f2)

  -- What is read after an update that succeeded comes from the database, not from the cache.
  pub update-find_first :
      (i : Bytes) (input : SettingUpdateInput) (actor : Bytes)
      (s : State db first_row is_valid_slug ensure) (v w : Settings) (now : ℕ)
      → (update db first_row is_valid_slug ensure i input actor s).0 ≡ ok v
      → (find_first db first_row is_valid_slug ensure now
          (update db first_row is_valid_slug ensure i input actor s).1).0
        ≡ ok w
      → IsStored w (update db first_row is_valid_slug ensure i input actor s).1.database
  unfolding update
  update-find_first i input actor s v w now h g =
      let s' = (update db first_row is_valid_slug ensure i input actor s).1 in
      let gone : s'.cache ≡ none =
        update_first-cache input actor (db.find_by settings Schema.id i s.database) s v h in
      elim (find_first-age now s' w g) [
        | inl there ↦ there
        | inr (cached, _) ↦ absurd (ground arith)
      ]

  -- The settings come from the cache, or they go there with the time.
  unfoldable pub IsRead :
      ℕ
      → Settings
      → State db first_row is_valid_slug ensure
      → State db first_row is_valid_slug ensure
      → Type 0
  IsRead now v s t =
      (IsStored v s.database × (t.cache ≡ some v) × (t.cache_at ≡ now))
      ⊎ ((s.cache ≡ some v) × (now - s.cache_at < 60))

  remember-IsRead :
      (now : ℕ) (s : State db first_row is_valid_slug ensure) (o : Option (List Row)) (v : Settings)
      → first_row s.database ≡ o
      → (remember db first_row is_valid_slug ensure now o s).0 ≡ ok v
      → IsRead now v s (remember db first_row is_valid_slug ensure now o s).1
  unfolding IsRead
  remember-IsRead now s none v e h = absurd (ground arith)
  remember-IsRead now s (some []) v e h = absurd (ground arith)
  remember-IsRead now s (some (r ∷ rows)) v e h =
      let same : v ≡ from_row r = ground arith in inl ((r, rows, e, same), ap some (sym same), refl)

  pub find_cached-IsRead :
      (now : ℕ) (s : State db first_row is_valid_slug ensure) (c : Option Settings) (v : Settings)
      → s.cache ≡ c
      → (find_cached db first_row is_valid_slug ensure now c s).0 ≡ ok v
      → IsRead now v s (find_cached db first_row is_valid_slug ensure now c s).1
  find_cached-IsRead now s none v e h = remember-IsRead now s (first_row s.database) v refl h
  find_cached-IsRead now s (some c) v e h = elim (Bool-cases (ltb (now - s.cache_at) ttl_sec)) [
    | inl young ↦ unfold IsRead in inr (ground arith, ground arith)
    | inr old ↦
        subst
          (λ b.
            IsRead now v s
              (if b
                then (ok c, s)
                else remember db first_row is_valid_slug ensure now (first_row s.database) s).1)
          (sym old) (remember-IsRead now s (first_row s.database) v refl (ground arith))
  ]

  pub find_first-hit :
      (now : ℕ) (s : State db first_row is_valid_slug ensure) (v : Settings)
      → s.cache ≡ some v
      → now - s.cache_at < 60
      → find_first db first_row is_valid_slug ensure now s ≡ (ok v, s)
  unfolding find_first
  find_first-hit now s v cached p =
      let young : ltb (now - s.cache_at) 60 ≡ true = ground arith in
      subst (λ c. find_cached db first_row is_valid_slug ensure now c s ≡ (ok v, s)) (sym cached)
        (rw young refl)
