-- ===== src/Services/Settings/Age.antt =====
-- How old the settings that are read may be, in any history of reads, updates and other writes.
use cppadmin.Base.{
  ℕ, ◌+◌, ◌-◌, ◌<◌, ◌≤◌, ◌≡◌, ◌⊎◌, inl, inr, refl, subst, Bytes, Bool, List, [], ◌∷◌, Option, none,
  some, arith, ltb, is_empty, Bool-cases, Option-cases,
}
use cppadmin.Error.{Error}
use cppadmin.Error.Effect.{ok}
use cppadmin.Database.{Database}
use cppadmin.Database.Schema.{Row, settings}
use cppadmin.Database.Schema
use cppadmin.Models.Field.{value_of}
use cppadmin.Models.Settings.{Settings, from_row, update_columns, update_args}
use cppadmin.Services.Settings.{
  SettingUpdateInput, State, ttl_sec, find_first, find_cached, remember, update, update_first,
  check_template, save, edited, invalidate,
}
use cppadmin.Services.Settings.Laws.{IsStored, IsRead, find_cached-IsRead, find_first-hit}

module _ (db : Database) (first_row : db.State → Option (List Row)) (is_valid_slug : Bytes → Bool)
    (ensure : Bytes → Option Error) where
  abbrev Service : Type 0
  Service = State db first_row is_valid_slug ensure

  -- What the database held at which times, the latest first.
  abbrev pub History : Type 0
  History = List (ℕ × db.State)

  abbrev pub started : db.State → Service
  started d = record { database = d; cache = none; cache_at = 0 }

  -- The service from its start to a time. In each step time may pass, and then someone else writes
  -- to the database, or the settings are read or updated, with whatever outcome.
  pub data Run : ℕ → History → Service → Type 0 where
    start : (d : db.State) → Run 0 [] (started d)
    write_at :
        {now : ℕ} {h : History} {s : Service}
        → Run now h s
        → (later : ℕ) → now ≤ later
        → (d : db.State) → Run later ((later, d) ∷ h) (record s { database = d })
    read_at :
        {now : ℕ} {h : History} {s : Service}
        → Run now h s
        → (later : ℕ) → now ≤ later
        → Run later
            ((later, s.database) ∷ h)
            (find_first db first_row is_valid_slug ensure later s).1
    edit_at :
        {now : ℕ} {h : History} {s : Service}
        → Run now h s
        → (later : ℕ) → now ≤ later
        → (i : Bytes) (input : SettingUpdateInput) (actor : Bytes)
        → Run later
            ((later, (update db first_row is_valid_slug ensure i input actor s).1.database) ∷ h)
            (update db first_row is_valid_slug ensure i input actor s).1

  -- The database held the settings at some time of the history that the test accepts.
  abbrev pub Held : Settings → (ℕ → Type 0) → History → Type 0
  Held v when [] = ⊥
  Held v when ((t, d) ∷ h) =
      (when t × IsStored db first_row is_valid_slug ensure v d) ⊎ Held v when h

  Held-map :
      (v : Settings) (p q : ℕ → Type 0) (h : History)
      → ((t : ℕ) → p t → q t)
      → Held v p h
      → Held v q h
  Held-map v p q [] f x = x
  Held-map v p q ((t, d) ∷ h) f (inl (x, there)) = inl (f t x, there)
  Held-map v p q ((t, d) ∷ h) f (inr x) = inr (Held-map v p q h f x)

  -- A cache holds what the database held at the time of the cache.
  abbrev IsNoted : ℕ → History → Option Settings → ℕ → Type 0
  IsNoted now h none at = Unit
  IsNoted now h (some v) at = (at ≤ now) × Held v (λ t. t ≡ at) h

  IsNoted-later :
      (now later : ℕ) (e : ℕ × db.State) (h : History) (c : Option Settings) (at : ℕ)
      → now ≤ later
      → IsNoted now h c at
      → IsNoted later (e ∷ h) c at
  IsNoted-later now later e h none at p q = tt
  IsNoted-later now later e h (some v) at p (q, x) = (omega arith, inr x)

  remember-IsNoted :
      (now : ℕ) (h : History) (s : Service) (o : Option (List Row))
      → first_row s.database ≡ o
      → IsNoted now ((now, s.database) ∷ h) s.cache s.cache_at
      → IsNoted now
          ((now, s.database) ∷ h)
          (remember db first_row is_valid_slug ensure now o s).1.cache
          (remember db first_row is_valid_slug ensure now o s).1.cache_at
  remember-IsNoted now h s none e p = p
  remember-IsNoted now h s (some []) e p = p
  remember-IsNoted now h s (some (r ∷ rows)) e p = (omega arith, inl (refl, (r, rows, e, refl)))

  find_cached-IsNoted :
      (now : ℕ) (h : History) (s : Service) (c : Option Settings)
      → IsNoted now ((now, s.database) ∷ h) s.cache s.cache_at
      → IsNoted now
          ((now, s.database) ∷ h)
          (find_cached db first_row is_valid_slug ensure now c s).1.cache
          (find_cached db first_row is_valid_slug ensure now c s).1.cache_at
  find_cached-IsNoted now h s none p = remember-IsNoted now h s (first_row s.database) refl p
  find_cached-IsNoted now h s (some v) p = elim (Bool-cases (ltb (now - s.cache_at) ttl_sec)) [
    | inl young ↦ rw young p
    | inr old ↦ rw old (remember-IsNoted now h s (first_row s.database) refl p)
  ]

  -- An update empties the cache or leaves it alone.
  abbrev IsCleared : Service → Service → Type 0
  IsCleared s t = (t.cache ≡ none) ⊎ ((t.cache ≡ s.cache) × (t.cache_at ≡ s.cache_at))

  save-IsCleared :
      (v : Settings) (s : Service) → IsCleared s (save db first_row is_valid_slug ensure v s).1
  unfolding invalidate
  save-IsCleared v s =
      elim (Option-cases
        (db.update settings (update_columns v) (update_args v) (value_of v.id) s.database)) [
          | inl failed ↦ rw failed (inr (refl, refl))
          | inr (d, done) ↦ rw done (inl refl)
        ]

  update_first-IsCleared :
      (input : SettingUpdateInput) (actor : Bytes) (o : Option (List Row)) (s : Service)
      → IsCleared s (update_first db first_row is_valid_slug ensure input actor o s).1
  unfolding check_template
  update_first-IsCleared input actor none s = inr (refl, refl)
  update_first-IsCleared input actor (some []) s = inr (refl, refl)
  update_first-IsCleared input actor (some (r ∷ rows)) s =
      let saves = save-IsCleared (edited input actor (from_row r)) s in
      elim (Bool-cases (is_empty input.fe_template)) [
        | inl unchanged ↦ rw unchanged saves
        | inr given ↦ elim (Bool-cases (is_valid_slug input.fe_template)) [
          | inr bad ↦ rw (given, bad) (inr (refl, refl))
          | inl good ↦ elim (Option-cases (ensure input.fe_template)) [
            | inl fetched ↦ rw (given, good, fetched) saves
            | inr (e, failed) ↦ rw (given, good, failed) (inr (refl, refl))
          ]
        ]
      ]

  IsCleared-IsNoted :
      (now : ℕ) (h : History) (s t : Service)
      → IsCleared s t
      → IsNoted now h s.cache s.cache_at
      → IsNoted now h t.cache t.cache_at
  IsCleared-IsNoted now h s t (inl gone) p = rw gone tt
  IsCleared-IsNoted now h s t (inr (same, at)) p = rw (same, at) p

  Run-IsNoted :
      {now : ℕ} {h : History} {s : Service} → Run now h s → IsNoted now h s.cache s.cache_at
  unfolding find_first update
  Run-IsNoted (start d) = tt
  Run-IsNoted (write_at {now} {h} {s} run later p d) =
      IsNoted-later now later (later, d) h s.cache s.cache_at p (Run-IsNoted run)
  Run-IsNoted (read_at {now} {h} {s} run later p) =
      find_cached-IsNoted later h s s.cache
        (IsNoted-later now later (later, s.database) h s.cache s.cache_at p (Run-IsNoted run))
  Run-IsNoted (edit_at {now} {h} {s} run later p i input actor) =
      let t = (update db first_row is_valid_slug ensure i input actor s).1 in
      IsCleared-IsNoted later ((later, t.database) ∷ h) s t
        (update_first-IsCleared input actor (db.find_by settings Schema.id i s.database) s)
        (IsNoted-later now later (later, t.database) h s.cache s.cache_at p (Run-IsNoted run))

  -- In any history of reads, updates and writes of others, with any outcomes, the settings that
  -- are read are those the database holds now, or those it held less than a minute ago. In the
  -- first case a read within the next minute gives them again, whatever the database then holds,
  -- and leaves the cache and its time alone.
  pub find_first-Run :
      (now later soon : ℕ) (h : History) (s : Service) (v : Settings) (d : db.State)
      → Run now h s
      → now ≤ later
      → soon < later + 60
      → (find_first db first_row is_valid_slug ensure later s).0 ≡ ok v
      → (IsStored db first_row is_valid_slug ensure v s.database
          × (find_first db first_row is_valid_slug ensure soon
                (record (find_first db first_row is_valid_slug ensure later s).1 { database = d })
              ≡ (
                ok v,
                record (find_first db first_row is_valid_slug ensure later s).1 { database = d },
              )))
        ⊎ Held v (λ t. (t ≤ later) × (later < t + 60)) h
  unfolding find_first IsRead
  find_first-Run now later soon h s v d run p q e =
      elim (find_cached-IsRead db first_row is_valid_slug ensure later s s.cache v refl e) [
        | inl (stored, cached, at) ↦ inl (
          stored,
          find_first-hit db first_row is_valid_slug ensure soon
              (record (find_first db first_row is_valid_slug ensure later s).1 { database = d }) v
              cached (omega (arith, at, q)),
        )
        | inr (cached, young) ↦
            let (at, held) = subst (λ c. IsNoted now h c s.cache_at) cached (Run-IsNoted run) in
            inr (
              Held-map v (λ t. t ≡ s.cache_at) (λ t. (t ≤ later) × (later < t + 60)) h
                (λ t same. (omega arith, omega arith)) held)
      ]
