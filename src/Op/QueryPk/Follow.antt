-- ===== src/Op/QueryPk/Follow.antt =====
-- A client that reads the pages of a keyset select by following the cursors, and the two statements
-- that it asks.
use toasty_driver_surreal.Prelude.{
  ℕ, zero, suc, String, ◌<>◌, true, List, [], ◌∷◌, ◌++◌, Option, none, some, ◌≡◌, refl, length,
}
use toasty_driver_surreal.Text.{decimal, join}
use toasty_driver_surreal.Error.{Result, ok}
use toasty_driver_surreal.Schema.{Column}
use toasty_driver_surreal.Value.{Value, SurValue, Object}
use toasty_driver_surreal.Value.Codec.{Codec}
use toasty_driver_surreal.Value.Encode.{to_surreal}
use toasty_driver_surreal.Expr.{push}
use toasty_driver_surreal.Conn.Sdk.{Sdk}
use toasty_driver_surreal.Conn.Session.{Connection, response}
use toasty_driver_surreal.Op.{ExecResponse, where_clause}
use toasty_driver_surreal.Op.QueryPk.{
  Direction, Pagination, KeysetSelect, run_keyset_select, keyset_statement, resume, keyset_text,
  apply_pagination, effective_order, resume_op, dir_text,
}

-- The select for a page of `n` rows behind a cursor.
abbrev pub page_after : KeysetSelect → ℕ → Option Value → KeysetSelect
page_after input n after = record input { limit = some (Pagination.cursor n after) }

module _ (C : Codec) (lookup : Object → String → Option SurValue) {S T R : Type 0} (sdk : Sdk S T R)
    (input : KeysetSelect) (n : ℕ) where
  unfoldable pub follow : Result ExecResponse → (Value → Option (List Value)) → Option (List Value)
  follow (ok (ExecResponse.page values (some cursor))) more = elim (more cursor) [
    | some rest ↦ some (values ++ rest)
    | none ↦ none
  ]
  follow (ok (ExecResponse.page values none)) more = some values
  follow _ more = none

  -- A client that follows the cursors, for at most so many pages: all the values of the pages, or
  -- none when there are more pages or one fails.
  unfoldable pub read_pages : ℕ → Connection S T → Option Value → Option (List Value)
  unfolding run_keyset_select follow
  read_pages zero conn after = none
  read_pages (suc fuel) conn after =
      let (response, next) = run_keyset_select C lookup sdk conn (page_after input n after) in
      follow response (λ cursor. read_pages fuel next (some cursor))

-- the directions, and the comparisons with the keys that come behind one, in SurrealQL
abbrev word : Direction → String
word Direction.asc = "ASC"
word Direction.desc = "DESC"

abbrev beyond : Direction → String
beyond Direction.asc = ">"
beyond Direction.desc = "<"

-- the two statements, in SurrealQL
abbrev pub first_text : KeysetSelect → String → ℕ → Direction → String
first_text input predicate n dir =
    ("SELECT "
      <> (input.projection <> ", " <> input.sort_ref <> " AS __toasty_sort_key")
      <> " FROM "
      <> input.table_name
      <> (" WHERE " <> predicate)
      <> (" ORDER BY " <> "__toasty_sort_key" <> " " <> word dir))
    <> " LIMIT "
    <> decimal n

abbrev pub next_text : KeysetSelect → String → ℕ → Direction → String
next_text input predicate n dir =
    first_text input
      (predicate
        <> " AND "
        <> input.sort_ref
        <> " "
        <> beyond dir
        <> " "
        <> "$"
        <> "p"
        <> decimal (length input.binds))
      n dir

word-dir : (dir : Direction) → dir_text dir ≡ word dir
word-dir Direction.asc = refl
word-dir Direction.desc = refl

beyond-op : (dir : Direction) → resume_op (some dir) ≡ beyond dir
beyond-op Direction.asc = refl
beyond-op Direction.desc = refl

module _ (C : Codec) (input : KeysetSelect) (n : ℕ) (predicate : String) (column : Column)
    (dir : Direction) (filtered : input.predicate ≡ some predicate)
    (sorted : input.sort_column ≡ some column)
    (directed : effective_order input.order true ≡ some dir) where
  pub first_statement :
      keyset_statement C (page_after input n none)
      ≡ ok (first_text input predicate n dir, input.binds)
  unfolding keyset_statement resume keyset_text where_clause apply_pagination join
  first_statement = rw (filtered, sorted, directed, word-dir dir) refl

  pub next_statement :
      (v : Value) (c : SurValue)
      → to_surreal C v ≡ ok c
      → keyset_statement C (page_after input n (some v))
        ≡ ok (
          next_text input predicate n dir,
          input.binds ++ ("p" <> decimal (length input.binds), c) ∷ [],
        )
  unfolding keyset_statement resume keyset_text where_clause apply_pagination join push
  next_statement v c stored =
      rw (stored, filtered, sorted, directed, word-dir dir, beyond-op dir) refl
