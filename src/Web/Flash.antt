-- ===== src/Web/Flash.antt =====
-- include/helpers/FlashHelper.h. The keys of the session that it uses are the fields of a record; the
-- texts of `setFieldErrors`, which JsonCpp writes, are arguments.
use cppadmin.Base.{
  Bytes, bytes, Bool, true, false, [], Option, none, some, ◌==◌, bytes_eq, bytes_beq, ◌≡◌, refl,
  if◌then◌else◌,
}

pub record Session : Type 0 where
  pub flash_key : Option Bytes
  pub flash_message : Option Bytes
  pub field_errors : Option Bytes
  pub old_input : Option Bytes

pub record FlashData : Type 0 where
  pub success : Bytes
  pub error : Bytes
  pub field_errors_json : Bytes
  pub old_input_json : Bytes

unfoldable pub set_success : Bytes → Session → Session
set_success msg s = record s { flash_key = some (bytes "success"); flash_message = some msg }

unfoldable pub set_error : Bytes → Session → Session
set_error msg s = record s { flash_key = some (bytes "error"); flash_message = some msg }

unfoldable pub set_field_errors : Bytes → Bytes → Session → Session
set_field_errors errors old s = record s { field_errors = some errors; old_input = some old }

-- v ? *v : ""
abbrev pub text_or_empty : Option Bytes → Bytes
text_or_empty none = []
text_or_empty (some v) = v

abbrev pub is_success : Option Bytes → Bool
is_success none = false
is_success (some k) = k == bytes "success"

abbrev pub is_failure : Option Bytes → Bool
is_failure none = false
is_failure (some k) = if k == bytes "success" then false else true

unfoldable pub read_flash : Session → FlashData
read_flash s = record {
  success = if is_success s.flash_key then text_or_empty s.flash_message else [];
  error = if is_failure s.flash_key then text_or_empty s.flash_message else [];
  field_errors_json = text_or_empty s.field_errors;
  old_input_json = text_or_empty s.old_input;
}

-- The message is erased with its key only.
abbrev pub erased_message : Option Bytes → Option Bytes → Option Bytes
erased_message none message = message
erased_message (some k) message = none

unfoldable pub erase_flash : Session → Session
erase_flash s = record {
  flash_key = none;
  flash_message = erased_message s.flash_key s.flash_message;
  field_errors = none;
  old_input = none;
}

unfoldable pub consume : Session → FlashData × Session
unfolding read_flash erase_flash
consume s = (read_flash s, erase_flash s)

abbrev pub no_flash : FlashData
no_flash = record { success = []; error = []; field_errors_json = []; old_input_json = [] }

-- Whatever the session held, what is read once is gone: a second reading finds nothing.
pub consume_once : (s : Session) → (consume (consume s).1).0 ≡ no_flash
unfolding consume
consume_once s = refl

error_failure : (bytes "error" == bytes "success") ≡ false
unfolding bytes bytes_beq
error_failure = refl

-- The last message that was set, and it alone, is read, as a success or as an error.
pub consume-set :
    (old new : Bytes) (s : Session)
    → (((consume (set_success new (set_error old s))).0.success ≡ new)
        × ((consume (set_success new (set_error old s))).0.error ≡ []))
      × (((consume (set_error new (set_success old s))).0.error ≡ new)
          × ((consume (set_error new (set_success old s))).0.success ≡ []))
unfolding consume set_success set_error bytes_beq bytes
consume-set old new s = ((refl, refl), (refl, refl))
