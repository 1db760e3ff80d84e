-- ===== src/Services/Mapper.antt =====
-- What the services call of `CoroMapper<T>` and `execSqlCoro`, as effects on the state of the
-- database; `from_row` is the constructor of `T` from a row.
pub mod Laws
use cppadmin.Base.{Bytes, List, [], ◌∷◌, Option, none, some, map, null}
use mathlib.Core.Option
use cppadmin.Error.{Error, other}
use cppadmin.Error.Effect.{Effect, Result, ok, err, reads, writes, for_each, pure, ◌>>=◌, ◌>>◌}
use cppadmin.Database.Schema.{
  Table, LinkTable, Column, Value, Row, Statement, insert_or_ignore, delete_link, delete_links,
}
use cppadmin.Database.{Database, Found, found, unexpected_rows, failed}

module _ (db : Database) where
  -- mapper.findBy(Criteria(c, CompareOperator::EQ, v))
  abbrev pub find_by : {A : Type 0} → (Row → A) → Table → Column → Bytes → Effect db.State (List A)
  find_by from_row t c v = reads (λ s. Option.map (map from_row) (db.find_by t c v s))

  -- The catch clause of `findByPrimaryKey`: other exceptions pass.
  abbrev pub found_or : {A : Type 0} → (Row → A) → Error → Found → Effect db.State A
  found_or from_row e (found r) s = (ok (from_row r), s)
  found_or from_row e unexpected_rows s = (err e, s)
  found_or from_row e failed s = (err other, s)

  -- try { mapper.findByPrimaryKey(i) } catch (const UnexpectedRows &) { throw e; }
  abbrev pub find_by_primary_key :
      {A : Type 0} → (Row → A) → Table → Error → Bytes → Effect db.State A
  find_by_primary_key from_row t e i s = found_or from_row e (db.find_by_primary_key t i s) s

  abbrev pub insert : Table → List Column → List (Option Value) → Effect db.State (Unit {0})
  insert t cs vs = writes (db.insert t cs vs)

  abbrev pub update : Table → List Column → List Value → Bytes → Effect db.State (Unit {0})
  update t cs vs i = writes (db.update t cs vs i)

  abbrev pub exec : Statement → Effect db.State (Unit {0})
  exec q = writes (db.exec q)

  -- for (const auto &b : bs) execSqlCoro("INSERT OR IGNORE INTO l …", a, b);
  abbrev pub link_all : LinkTable → Bytes → List Bytes → Effect db.State (Unit {0})
  link_all l a bs = for_each bs (λ b. exec (insert_or_ignore l a b))

  abbrev pub unlink_each : LinkTable → Bytes → List Bytes → Effect db.State (Unit {0})
  unlink_each l a bs = for_each bs (λ b. exec (delete_link l a b))

  -- if (!bs.empty()) { execSqlCoro("DELETE FROM l WHERE … = ?", a); for (…) … }
  abbrev pub replace_links : LinkTable → Bytes → List Bytes → Effect db.State (Unit {0})
  replace_links l a [] = pure tt
  replace_links l a (b ∷ bs) = do exec (delete_links l a); link_all l a (b ∷ bs)
