-- ===== src/Database/Schema.antt =====
-- Tables, columns and values as the models and the SQL texts of the services name them.
use cppadmin.Base.{
  ℕ, Bytes, Bool, true, false, List, [], ◌∷◌, Option, none, some, ◌≡◌, ◌↔◌, nat_beq, bytes_beq,
  if◌then◌else◌, refl, sym, ap, ◌∙◌, nat_beq_iff,
}

pub data Table : Type 0 where
  users roles permissions settings : Table

pub data LinkTable : Type 0 where
  users_roles roles_permissions : LinkTable

pub data Column : Type 0 where
  id code name phone email password password_otp password_otp_expires status picture : Column
  blocked blocked_reason timezone created_by updated_by guard_name method desc : Column
  initial description icon logo favicon login_image address copyright theme fe_template : Column

abbrev column_number : Column → ℕ
column_number id = 0
column_number code = 1
column_number name = 2
column_number phone = 3
column_number email = 4
column_number password = 5
column_number password_otp = 6
column_number password_otp_expires = 7
column_number status = 8
column_number picture = 9
column_number blocked = 10
column_number blocked_reason = 11
column_number timezone = 12
column_number created_by = 13
column_number updated_by = 14
column_number guard_name = 15
column_number method = 16
column_number desc = 17
column_number initial = 18
column_number description = 19
column_number icon = 20
column_number logo = 21
column_number favicon = 22
column_number login_image = 23
column_number address = 24
column_number copyright = 25
column_number theme = 26
column_number fe_template = 27

unfoldable pub column_beq : Column → Column → Bool
column_beq a b = nat_beq (column_number a) (column_number b)

abbrev column_at : ℕ → Column
column_at n =
    if nat_beq n 0
    then id
    else if nat_beq n 1
    then code
    else if nat_beq n 2
    then name
    else if nat_beq n 3
    then phone
    else if nat_beq n 4
    then email
    else if nat_beq n 5
    then password
    else if nat_beq n 6
    then password_otp
    else if nat_beq n 7
    then password_otp_expires
    else if nat_beq n 8
    then status
    else if nat_beq n 9
    then picture
    else if nat_beq n 10
    then blocked
    else if nat_beq n 11
    then blocked_reason
    else if nat_beq n 12
    then timezone
    else if nat_beq n 13
    then created_by
    else if nat_beq n 14
    then updated_by
    else if nat_beq n 15
    then guard_name
    else if nat_beq n 16
    then method
    else if nat_beq n 17
    then desc
    else if nat_beq n 18
    then initial
    else if nat_beq n 19
    then description
    else if nat_beq n 20
    then icon
    else if nat_beq n 21
    then logo
    else if nat_beq n 22
    then favicon
    else if nat_beq n 23
    then login_image
    else if nat_beq n 24
    then address
    else if nat_beq n 25
    then copyright
    else if nat_beq n 26
    then theme
    else fe_template

column_at-column_number : (c : Column) → column_at (column_number c) ≡ c
column_at-column_number id = refl
column_at-column_number _ = refl

pub column_beq_iff : (a b : Column) → (column_beq a b ≡ true) ↔ (a ≡ b)
unfolding column_beq
column_beq_iff a b = (
  λ h.
      sym (column_at-column_number a)
      ∙ (ap column_at ((nat_beq_iff _ _).0 h) ∙ column_at-column_number b),
  λ e. (nat_beq_iff _ _).1 (ap column_number e),
)

pub data Value : Type 0 where
  text : Bytes → Value
  number : ℕ → Value
  flag : Bool → Value

-- A row gives the value of each column; `none` is NULL.
abbrev pub Row : Type 0
Row = Column → Option Value

-- The statements without a result, one constructor for each SQL text.
pub data Statement : Type 0 where
  insert_or_ignore : LinkTable → Bytes → Bytes → Statement
  delete_links : LinkTable → Bytes → Statement
  delete_link : LinkTable → Bytes → Bytes → Statement
  set_password : Bytes → Bytes → Statement

-- The queries, one constructor for each SQL text.
pub data Query : Type 0 where
  administrator_membership : Bytes → Query
  active_permission : Bytes → Bytes → Query
  roles_of_user : Bytes → Query
  permissions_of_role : Bytes → Query

abbrev pub table_beq : Table → Table → Bool
table_beq users users = true
table_beq roles roles = true
table_beq permissions permissions = true
table_beq settings settings = true
table_beq _ _ = false

abbrev pub link_beq : LinkTable → LinkTable → Bool
link_beq users_roles users_roles = true
link_beq roles_permissions roles_permissions = true
link_beq _ _ = false

abbrev pub empty_row : Row
empty_row k = none

-- The row after a list of assignments of columns, as `INSERT` and `UPDATE` make them.
unfoldable pub assign : List Column → List (Option Value) → Row → Row
assign [] _ r = r
assign (c ∷ cs) [] r = r
assign (c ∷ cs) (v ∷ vs) r = λ k. if column_beq k c then v else assign cs vs r k

unfoldable pub has_column : Column → List Column → Bool
has_column k [] = false
has_column k (c ∷ cs) = if column_beq k c then true else has_column k cs

-- Whether a value is the text `v`.
unfoldable pub is_text : Option Value → Bytes → Bool
is_text (some (text w)) v = bytes_beq w v
is_text _ v = false
