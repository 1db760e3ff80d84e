-- ===== src/Database.antt =====
-- The database that the services use through Drogon's `CoroMapper` and `execSqlCoro`. Both are
-- outside the repository, so they are a record of operations; `Database.Laws` states what the
-- code relies on, and `Database.Memory` is a database that has it.
pub mod Schema
pub mod Laws
pub mod Memory
use cppadmin.Base.{Bytes, List, Option}
use cppadmin.Database.Schema.{Table, LinkTable, Column, Value, Row, Statement, Query}

-- The outcome of `findByPrimaryKey`: it throws `UnexpectedRows` when no row has the key.
pub data Found : Type 0 where
  found : Row → Found
  unexpected_rows : Found
  failed : Found

-- `none` is a thrown exception that is no `UnexpectedRows`.
pub record Database : Type 1 where
  pub State : Type 0
  pub find_by : Table → Column → Bytes → State → Option (List Row)
  pub find_by_primary_key : Table → Bytes → State → Found
  pub insert : Table → List Column → List (Option Value) → State → Option State
  pub update : Table → List Column → List Value → Bytes → State → Option State
  pub delete_by_primary_key : Table → Bytes → State → Option State
  pub exec : Statement → State → Option State
  pub query : Query → State → Option (List Row)
