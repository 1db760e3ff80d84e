-- ===== src/Error.antt =====
-- include/AppError.h, and the effects of a service coroutine: it reads and writes the database
-- and may throw. What was written before a throw stays written, as the source opens no
-- transaction.
pub mod Effect
use cppadmin.Base.{ℕ, String, Bytes, bytes}

-- `AppError` with its message and status code; `other` is any exception that is no `AppError`,
-- such as one thrown by the database client.
pub data Error : Type 0 where
  app : Bytes → ℕ → Error
  other : Error

abbrev pub not_found_error : String → Error
not_found_error msg = app (bytes msg) 404

abbrev pub conflict_error : String → Error
conflict_error msg = app (bytes msg) 409

abbrev pub validation_error : String → Error
validation_error msg = app (bytes msg) 422

abbrev pub unauthorized_error : String → Error
unauthorized_error msg = app (bytes msg) 401

abbrev pub forbidden_error : String → Error
forbidden_error msg = app (bytes msg) 403
