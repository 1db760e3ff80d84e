-- ===== src/Services/Users/Edited.antt =====
-- What the object that an update saves does to the columns of a user.
use cppadmin.Base.{
  Option, [], ◌∷◌, true, false, refl, ◌≡◌, Bytes, Bool, some, bytes_eq, if◌then◌else◌,
}
use cppadmin.Models.Field.{or_else, or_else_self}
use cppadmin.Models.Users.{Users}
use cppadmin.Models.Users.Laws.{merge}
use cppadmin.Services.Users.{UserUpdateInput, set_some, reason, edited}

-- An empty text of the input leaves the column as it is.
abbrev pub or_kept : Bytes → Option Bytes → Option Bytes
or_kept [] old = old
or_kept (c ∷ v) old = some (c ∷ v)

-- What an update is meant to do to the columns.
abbrev pub IsUpdated : UserUpdateInput → Bytes → Users → Users → Type 0
IsUpdated input actor old v =
    (v.name ≡ or_kept input.name old.name)
    × (v.phone ≡ or_kept input.phone old.phone)
    × (v.status ≡ or_kept input.status old.status)
    × (v.timezone ≡ or_kept input.timezone old.timezone)
    × (v.picture ≡ or_kept input.picture old.picture)
    × (v.blocked ≡ some input.blocked)
    × (v.blocked_reason ≡ (
        if input.blocked
        then or_kept input.blocked_reason old.blocked_reason
        else old.blocked_reason))
    × (v.updated_by ≡ some actor)
    × (v.id ≡ old.id)
    × (v.code ≡ old.code)
    × (v.email ≡ old.email)
    × (v.password ≡ old.password)
    × (v.password_otp ≡ old.password_otp)
    × (v.password_otp_expires ≡ old.password_otp_expires)
    × (v.created_by ≡ old.created_by)

set_some-or_kept : (v : Bytes) (old : Option Bytes) → or_else (set_some v old) old ≡ or_kept v old
set_some-or_kept [] old = or_else_self old
set_some-or_kept (c ∷ v) old = refl

reason-or_kept :
    (b : Bool) (v : Bytes) (old : Option Bytes)
    → or_else (reason b v old) old ≡ (if b then or_kept v old else old)
reason-or_kept false v old = or_else_self old
reason-or_kept true [] old = or_else_self old
reason-or_kept true (c ∷ v) old = refl

pub merge-IsUpdated :
    (input : UserUpdateInput) (actor : Bytes) (old : Users)
    → IsUpdated input actor old (merge (edited input actor old) old)
unfolding edited
merge-IsUpdated input actor old = (
  set_some-or_kept input.name old.name,
  set_some-or_kept input.phone old.phone,
  set_some-or_kept input.status old.status,
  set_some-or_kept input.timezone old.timezone,
  set_some-or_kept input.picture old.picture,
  refl,
  reason-or_kept input.blocked input.blocked_reason old.blocked_reason,
  refl,
  refl,
  or_else_self old.code,
  or_else_self old.email,
  or_else_self old.password,
  or_else_self old.password_otp,
  or_else_self old.password_otp_expires,
  refl,
)
