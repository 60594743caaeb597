-- ===== src/Migration/Diff.antt =====
-- `toasty_core::schema::diff`. The constructors `other` are what the catch-all arms of the driver
-- take.
use toasty_driver_surreal.Prelude.{List}
use toasty_driver_surreal.Schema.{Column, Index, Table}

pub data ColumnDiff : Type 0 where
  add drop : Column → ColumnDiff
  alter : Column → Column → ColumnDiff
  other : ColumnDiff

pub data IndexDiff : Type 0 where
  create drop : Index → IndexDiff
  alter : Index → Index → IndexDiff
  other : IndexDiff

pub data TableDiff : Type 0 where
  create drop : Table → TableDiff
  alter : Table → Table → List ColumnDiff → List IndexDiff → TableDiff
  other : TableDiff
