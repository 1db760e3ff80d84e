-- ===== src/Services/Settings.antt =====
-- services/SettingService.cc: the settings row and its cache of a minute. The cache is part of the
-- state; the mutex is not modelled, as each operation is one step.
pub mod Laws
pub mod Age
mod Tests
use cppadmin.Base.{
  ℕ, ◌-◌, Bytes, bytes, Bool, true, false, not, List, [], ◌∷◌, Option, none, some, map, is_empty,
  ltb, if◌then◌else◌,
}
use mathlib.Core.Option
use cppadmin.Error.{Error, app, other, not_found_error}
use cppadmin.Error.Effect.{Effect, Result, ok, err, pure, throw, ◌>>=◌, ◌>>◌}
use cppadmin.Database.{Database}
use cppadmin.Database.Schema.{Row, settings}
use cppadmin.Database.Schema
use cppadmin.Models.Field.{value_of}
use cppadmin.Models.Settings.{Settings, from_row, update_columns, update_args}
use cppadmin.Services.Users.{set_some}

pub record SettingUpdateInput : Type 0 where
  pub name : Bytes
  pub description : Bytes
  pub icon : Bytes
  pub logo : Bytes
  pub favicon : Bytes
  pub login_image : Bytes
  pub phone : Bytes
  pub address : Bytes
  pub email : Bytes
  pub copyright : Bytes
  pub theme : Bytes
  pub fe_template : Bytes

-- `kTtlSec`
abbrev pub ttl_sec : ℕ
ttl_sec = 60

-- The object that `update` saves.
unfoldable pub edited : SettingUpdateInput → Bytes → Settings → Settings
edited input actor s = record s {
  name = set_some input.name s.name;
  description = set_some input.description s.description;
  icon = set_some input.icon s.icon;
  logo = set_some input.logo s.logo;
  favicon = set_some input.favicon s.favicon;
  login_image = set_some input.login_image s.login_image;
  phone = set_some input.phone s.phone;
  address = set_some input.address s.address;
  email = set_some input.email s.email;
  copyright = set_some input.copyright s.copyright;
  theme = set_some input.theme s.theme;
  fe_template = set_some input.fe_template s.fe_template;
  updated_by = some actor;
}

-- `first_row` is `mapper.limit(1).findAll()`; `is_valid_slug` and `ensure` are the operations of the
-- template service, of which `ensure` throws an error or returns.
module _ (db : Database) (first_row : db.State → Option (List Row)) (is_valid_slug : Bytes → Bool)
    (ensure : Bytes → Option Error) where
  pub record State : Type 0 where
    pub database : db.State
    pub cache : Option Settings
    pub cache_at : ℕ

  unfoldable pub invalidate : State → State
  invalidate s = record s { cache = none }

  -- The row that was read, which goes into the cache.
  abbrev pub remember : ℕ → Option (List Row) → Effect State Settings
  remember now none s = (err other, s)
  remember now (some []) s = (err (not_found_error "Settings not configured."), s)
  remember now (some (r ∷ rows)) s =
      (ok (from_row r), record s { cache = some (from_row r); cache_at = now })

  abbrev pub find_cached : ℕ → Option Settings → Effect State Settings
  find_cached now none s = remember now (first_row s.database) s
  find_cached now (some c) s =
      if ltb (now - s.cache_at) ttl_sec then (ok c, s) else remember now (first_row s.database) s

  unfoldable pub find_first : ℕ → Effect State Settings
  find_first now s = find_cached now s.cache s

  abbrev pub stopped : Option Error → Effect State (Unit {0})
  stopped none s = (ok tt, s)
  stopped (some e) s = (err e, s)

  -- The template is checked, and fetched, before anything is saved.
  unfoldable pub check_template : Bytes → Effect State (Unit {0})
  check_template slug s =
      if is_empty slug
      then (ok tt, s)
      else if is_valid_slug slug
      then stopped (ensure slug) s
      else (err (app (bytes "Template tidak dikenali") 400), s)

  abbrev pub saved : Option db.State → Effect State (Unit {0})
  saved none s = (err other, s)
  saved (some d) s = (ok tt, record s { database = d })

  -- mapper.update(v); invalidate();
  abbrev pub save : Settings → Effect State Settings
  save v s =
      ((λ t.
            saved (db.update settings (update_columns v) (update_args v) (value_of v.id) t.database)
              t)
          >>= λ _ t. (ok v, invalidate t))
        s

  abbrev pub update_first : SettingUpdateInput → Bytes → Option (List Row) → Effect State Settings
  update_first input actor none s = (err other, s)
  update_first input actor (some []) s = (err (not_found_error "Settings not found."), s)
  update_first input actor (some (r ∷ rows)) s =
      (check_template input.fe_template >> save (edited input actor (from_row r))) s

  unfoldable pub update : Bytes → SettingUpdateInput → Bytes → Effect State Settings
  unfolding invalidate check_template
  update i input actor s = update_first input actor (db.find_by settings Schema.id i s.database) s
