-- ===== src/Services/Auth/Tests.antt =====
-- The service on a database in memory with one user.
use cppadmin.Base.{
  ◌+◌, ◌≡◌, ◌⊎◌, ◌↔◌, ◌≤◌, refl, Bytes, bytes, bytes_beq, true, false, List, [], ◌∷◌, some, arith,
}
use cppadmin.Error.Effect.{ok}
use cppadmin.Database.Schema.{Table, Row, users, text, assign, column_beq, is_text, table_beq}
use cppadmin.Database.Schema
use cppadmin.Database.Memory.{Memory, keyed, Rows, memory, empty_memory, select, lookup}
use cppadmin.Database.Memory.Relational.{memory_laws}
use cppadmin.Models.Users.{Users, empty, from_row, output_args}
use cppadmin.Models.Field.{value_of}
use cppadmin.Jwt.Token.{verify}
use cppadmin.Jwt.Library.Unary.{unary, unary_laws}
use cppadmin.Services.Bcrypt.{marking, marking_laws}
use cppadmin.Services.UserRows.{row_of, HasUniqueEmails}
use cppadmin.Services.Auth.{
  RegisterInput, ResetProcessInput, Config, registered, register_user, login, issue_jwt, admit,
  process_password_reset, request_password_reset,
}
use cppadmin.Services.Auth.Login.{
  MayEnter, IsRefused, login-cases, login_sound, login-verify, result_for,
}
use cppadmin.Services.Auth.Registration.{register_user-HasUniqueEmails, register_user-login}
use cppadmin.Services.Auth.Reset.{
  IsUsableOtp, process_password_reset_sound, request_password_reset_sound,
}
use cppadmin.Services.Auth.Otp.{generate_otp}

abbrev config : Config
config = record {
  jwt_secret = 1 ∷ [];
  jwt_expire_seconds = 100;
  otp_expiry_minutes = 10;
  bcrypt_rounds = 10;
}

abbrev alice : Users
alice = record empty {
  id = some (1 ∷ []);
  email = some (2 ∷ []);
  password = some (36 ∷ 3 ∷ []);
  password_otp = some (36 ∷ 4 ∷ []);
  password_otp_expires = some 50;
  status = some (bytes "Active");
  blocked = some false;
}

abbrev user_rows : Table → Rows
user_rows users = (1 ∷ [], row_of alice) ∷ []
user_rows _ = []

abbrev one_user : Memory
one_user = record empty_memory { rows = λ t. user_rows t }

abbrev alice_row : Row
alice_row = keyed (1 ∷ []) (row_of alice)

alice_stored : memory_laws.stored one_user users (1 ∷ []) ≡ some alice_row
unfolding memory_laws lookup bytes_beq
alice_stored = refl

alice_in :
    (login memory marking unary config (2 ∷ []) (3 ∷ []) 0 one_user).0
    ≡ ok (result_for memory marking unary config 0 alice)
unfolding login select lookup bytes_beq admit assign output_args column_beq from_row is_text bytes
alice_in = refl

login-cases_example :
    ((row : Row) × (rows : List Row) × (memory.find_by users Schema.email (2 ∷ []) one_user
        ≡ some (row ∷ rows))
      × MayEnter memory marking unary config (3 ∷ []) (from_row row)
      × (login memory marking unary config (2 ∷ []) (3 ∷ []) 0 one_user
          ≡ (ok (result_for memory marking unary config 0 (from_row row)), one_user)))
    ⊎ (IsRefused memory marking unary config
          (login memory marking unary config (2 ∷ []) (3 ∷ []) 0 one_user).0
        × ((login memory marking unary config (2 ∷ []) (3 ∷ []) 0 one_user).1 ≡ one_user))
login-cases_example = login-cases memory marking unary config (2 ∷ []) (3 ∷ []) 0 one_user

login_sound_example :
    (i : Bytes) × (row : Row) × (memory_laws.stored one_user users i ≡ some row)
    × (row Schema.email ≡ some (text (2 ∷ [])))
    × (alice ≡ from_row row)
    × MayEnter memory marking unary config (3 ∷ []) (from_row row)
login_sound_example =
    login_sound memory marking unary config memory_laws (2 ∷ []) (3 ∷ []) 0 one_user
      (result_for memory marking unary config 0 alice) alice_in

login-verify_example :
    (((verify unary (issue_jwt unary config (1 ∷ []) (2 ∷ []) 0) (1 ∷ []) 50).valid ≡ true)
      ↔ (50 ≤ 0 + 100))
    × (50 ≤ 0 + 100
        → (verify unary (issue_jwt unary config (1 ∷ []) (2 ∷ []) 0) (1 ∷ []) 50).sub ≡ 1 ∷ [])
login-verify_example =
    login-verify memory marking unary config unary_laws (2 ∷ []) (3 ∷ []) 0 50 one_user
      (result_for memory marking unary config 0 alice) alice_in (λ h. absurd (ground arith))
      (omega arith)

abbrev bob : RegisterInput
bob = record { name = 6 ∷ []; email = 5 ∷ []; password = 7 ∷ []; phone = [] }

abbrev bob_made : Users
bob_made = registered memory marking (8 ∷ []) (8 ∷ []) [] bob

bob_in : (register_user memory marking (8 ∷ []) (8 ∷ []) [] bob one_user).0 ≡ ok bob_made
unfolding register_user registered select lookup bytes_beq assign output_args column_beq is_text
bob_in = refl

nobody_HasUniqueEmails : HasUniqueEmails memory memory_laws empty_memory
unfolding memory_laws lookup
nobody_HasUniqueEmails i j r q e there _ _ _ = absurd (ground arith)

register_user-HasUniqueEmails_example :
    HasUniqueEmails memory memory_laws
      (register_user memory marking (8 ∷ []) (8 ∷ []) [] bob empty_memory).1
register_user-HasUniqueEmails_example =
    register_user-HasUniqueEmails memory marking memory_laws (8 ∷ []) (8 ∷ []) [] bob empty_memory
      nobody_HasUniqueEmails

register_user-login_example :
    IsRefused memory marking unary config
      (login memory marking unary config
        (5 ∷ [])
        (7 ∷ [])
        0
        (register_user memory marking (8 ∷ []) (8 ∷ []) [] bob one_user).1).0
register_user-login_example =
    register_user-login memory marking memory_laws unary config (8 ∷ []) (8 ∷ []) [] bob one_user
      bob_made bob_in (7 ∷ []) 0

abbrev reset : ResetProcessInput
reset = record { email = 2 ∷ []; otp = 4 ∷ []; new_password = 9 ∷ [] }

reset_done : (process_password_reset memory marking [] 50 reset one_user).0 ≡ ok tt
unfolding process_password_reset select lookup bytes_beq assign output_args column_beq is_text
    from_row
reset_done = refl

process_password_reset_example :
    (i : Bytes) × (row row' : Row) × (memory_laws.stored one_user users i ≡ some row)
    × (row Schema.email ≡ some (text (2 ∷ [])))
    × IsUsableOtp memory marking (4 ∷ []) 50 (from_row row)
    × (memory_laws.stored (process_password_reset memory marking [] 50 reset one_user).1 users i
        ≡ some row')
    × (marking.verify (9 ∷ []) (value_of (from_row row').password) ≡ true)
    × ((from_row row').password_otp ≡ (from_row row).password_otp)
    × ((from_row row').password_otp_expires ≡ (from_row row).password_otp_expires)
process_password_reset_example =
    process_password_reset_sound memory marking memory_laws marking_laws [] 50 reset one_user
      reset_done

request_done : (request_password_reset memory marking config [] 7 60 (2 ∷ []) one_user).0 ≡ ok tt
unfolding request_password_reset select lookup bytes_beq assign output_args column_beq is_text
    from_row
request_done = refl

request_password_reset_example :
    (i : Bytes) × (row row' : Row) × (memory_laws.stored one_user users i ≡ some row)
    × (row Schema.email ≡ some (text (2 ∷ [])))
    × (memory_laws.stored
          (request_password_reset memory marking config [] 7 60 (2 ∷ []) one_user).1
          users
          i
        ≡ some row')
    × IsUsableOtp memory marking (generate_otp 6 7) 600 (from_row row')
    × ((from_row row').password ≡ (from_row row).password)
unfolding assign output_args column_beq
request_password_reset_example =
    request_password_reset_sound memory marking config memory_laws marking_laws [] 7 60 600 (2 ∷ [])
      (1 ∷ []) alice_row one_user alice_stored refl request_done (omega arith)
