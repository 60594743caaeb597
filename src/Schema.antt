-- ===== src/Schema.antt =====
-- The parts of `toasty_core::schema::db` that the driver reads: columns, primary keys, indices and
-- tables. Fields that no code of the driver reads are left out.
use toasty_driver_surreal.Prelude.{ℕ, String, Bool, true, List, ◌&&◌, ◌==◌, any, ◌≡◌, ◌↔◌, arith}
use toasty_driver_surreal.Value.{StmtType, DbType}

pub record ColumnId : Type 0 where
  pub table : ℕ
  pub index : ℕ

pub record Column : Type 0 where
  pub id : ColumnId
  pub name : String
  pub ty : StmtType
  pub storage_ty : DbType

pub record Index : Type 0 where
  pub name : String
  -- the columns of its `IndexColumn`s
  pub columns : List ColumnId
  pub unique : Bool
  pub primary_key : Bool

pub record Table : Type 0 where
  pub name : String
  pub columns : List Column
  -- `primary_key.columns`
  pub primary_key : List ColumnId
  pub indices : List Index

-- `==` of `ColumnId`
abbrev pub same_column : ColumnId → ColumnId → Bool
same_column a b = (a.table == b.table) && (a.index == b.index)

pub same_column_iff : (a b : ColumnId) → (same_column a b ≡ true) ↔ (a ≡ b)
same_column_iff a b = ground arith

-- `Vec<ColumnId>::contains`
abbrev pub contains_column : List ColumnId → ColumnId → Bool
contains_column ids id = any (λ other. same_column other id) ids

-- What the driver uses of toasty-core to look columns up.
pub record Catalog : Type 0 where
  -- `Table::column`
  pub column : Table → ColumnId → Column
  -- `Table::primary_key_columns`
  pub primary_key_columns : Table → List Column
  -- `Table::resolve`, of a projection
  pub resolve : Table → List ℕ → Column
