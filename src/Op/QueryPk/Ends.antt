-- ===== src/Op/QueryPk/Ends.antt =====
-- The end of following the cursors, on a server whose rows come in any order.
use toasty_driver_surreal.Prelude.{
  All-In, ℕ, zero, suc, ◌<◌, String, ◌<>◌, true, false, List, [], ◌∷◌, ◌++◌, Option, none, some, In,
  ltb, subst, All-append_right, ◌≡◌, refl, inl, inr, length, All, map, arith, Bool-cases,
}
use toasty_driver_surreal.Text.{decimal}
use toasty_driver_surreal.Error.{ok}
use toasty_driver_surreal.Schema.{Column}
use toasty_driver_surreal.Value.{Value, SurValue, Object}
use toasty_driver_surreal.Value.Codec.{Codec}
use toasty_driver_surreal.Conn.Sdk.{done, Sdk}
use toasty_driver_surreal.Conn.Session.{Connection}
use toasty_driver_surreal.Op.QueryPk.{
  Direction, Pagination, KeysetSelect, effective_order, keyset_cursor, cursor_in,
}
use toasty_driver_surreal.Op.QueryPk.Left.{
  count_above, above-shrinks, above-bounded, All-imp, snoc-cases,
}
use toasty_driver_surreal.Op.QueryPk.Follow.{read_pages, follow, first_text, next_text}
use toasty_driver_surreal.Op.QueryPk.Found.{
  Matching, Readable, Answers, short_cursor, full_cursor, page_response, Finds, first-Finds,
  next-Finds,
}

module _ (C : Codec) (lookup : Object → String → Option SurValue) {S T R : Type 0} (sdk : Sdk S T R)
    (input : KeysetSelect) (n : ℕ) (predicate : String) (column : Column) (dir : Direction)
    (M : Matching R) where
  -- The server honours the predicates of the two statements: with any of the rows that the first
  -- selects, and with any that are above the bound cursor. The keys' order is strict.
  pub record IsFiltered (conn : Connection S T) (chosen : Option SurValue → List Object)
      : Type 0 where
    pub transitive : (a b c : SurValue) → M.less a b ≡ true → M.less b c ≡ true → M.less a c ≡ true
    pub irreflexive : (a : SurValue) → M.less a a ≡ false
    pub first :
        sdk.query (first_text input predicate n dir) input.binds conn.server
        ≡ (done (M.answer (chosen none)), conn.server)
    pub resumed :
        (c : SurValue)
        → sdk.query
            (next_text input predicate n dir)
            (input.binds ++ ("p" <> decimal (length input.binds), c) ∷ [])
            conn.server
          ≡ (done (M.answer (chosen (some c))), conn.server)
    pub selected : All (λ row. In row M.rows) (chosen none)
    pub behind :
        (c : SurValue)
        → All (λ row. In row M.rows × (M.less c (M.key row) ≡ true)) (chosen (some c))
    pub answers : Answers C lookup sdk input n predicate column dir M

  module _ (conn : Connection S T) (chosen : Option SurValue → List Object)
      (served : IsFiltered conn chosen) (idle : conn.transaction ≡ none)
      (filtered : input.predicate ≡ some predicate) (sorted : input.sort_column ≡ some column)
      (directed : effective_order input.order true ≡ some dir) where
    abbrev FindsHere : Option Value → List Object → Type 0
    FindsHere =
        Finds C lookup sdk input n predicate column dir M served.answers conn idle filtered sorted
          directed

    abbrev IsReadable : Object → Type 0
    IsReadable = Readable C lookup sdk input n predicate column dir M

    abbrev left : Object → ℕ
    left row = count_above M.key M.less served.transitive served.irreflexive (M.key row) M.rows

    -- the rows of a page, behind each of which fewer than `bound` rows are left
    abbrev Behind : ℕ → Object → Type 0
    Behind bound row = In row M.rows × (left row < bound)

    empty_cursor :
        (after : Option Value)
        → keyset_cursor C lookup [] (some (Pagination.cursor n after)) input.sort_column ≡ ok none
    unfolding keyset_cursor cursor_in
    empty_cursor after = elim (Bool-cases (ltb 0 n)) [ inl e ↦ rw e refl | inr e ↦ rw e refl ]

    abbrev Ends : ℕ → Option Value → Type 0
    Ends fuel after =
        (values : List Value) × (read_pages C lookup sdk input n fuel conn after ≡ some values)

    last_page :
        (fuel : ℕ) (after : Option Value) (rows : List Object)
        → FindsHere after rows
        → All IsReadable rows
        → keyset_cursor C lookup
            (map SurValue.object rows)
            (some (Pagination.cursor n after))
            input.sort_column
          ≡ ok none
        → Ends (suc fuel) after
    unfolding read_pages follow
    last_page fuel after rows f h e = (
      map M.decoded rows,
      rw
          (
            f,
            page_response C lookup sdk input n predicate column dir M served.answers after rows none
                h e,
          )
          refl,
    )

    more_pages :
        (fuel : ℕ) (after : Option Value) (rows : List Object) (next : Value)
        → FindsHere after rows
        → All IsReadable rows
        → keyset_cursor C lookup
            (map SurValue.object rows)
            (some (Pagination.cursor n after))
            input.sort_column
          ≡ ok (some next)
        → Ends fuel (some next)
        → Ends (suc fuel) after
    unfolding read_pages follow
    more_pages fuel after rows next f h e (values, r) = (
      map M.decoded rows ++ values,
      rw
          (
            f,
            page_response C lookup sdk input n predicate column dir M served.answers after rows
                (some next) h e,
            r,
          )
          refl,
    )

    page-IsReadable :
        (bound : ℕ) (rows : List Object)
        → All IsReadable M.rows
        → All (Behind bound) rows
        → All IsReadable rows
    page-IsReadable bound rows h =
        All-imp (Behind bound) IsReadable (λ row (i, b). All-In IsReadable M.rows row h i) rows

    ends :
        All IsReadable M.rows
        → (fuel bound : ℕ) (after : Option Value) (rows : List Object) → FindsHere after rows
        → All (Behind bound) rows
        → bound < fuel
        → Ends fuel after
    ends h zero bound after rows f b m = absurd (omega arith)
    ends h (suc fuel) bound after rows f b m =
        let here = page-IsReadable bound rows h b in
        elim (Bool-cases (ltb (length rows) n)) [
          | inl short ↦ last_page fuel after rows f here (
              short_cursor C lookup sdk input n predicate column dir M served.answers after rows
                (ground arith))
          | inr long ↦ elim (snoc-cases rows) [
            | inl e ↦ last_page fuel after rows f here (rw e (empty_cursor after))
            | inr (ys, y, e) ↦
                let shown = subst (All IsReadable) e here in
                let ((k, c, s, d), nothing) = All-append_right IsReadable ys (y ∷ []) shown in
                let ((i, fewer), none_left) =
                  All-append_right (Behind bound) ys (y ∷ []) (subst (All (Behind bound)) e b) in
                let next : All (Behind (left y)) (chosen (some (M.key y))) =
                  All-imp (λ row. In row M.rows × (M.less (M.key y) (M.key row) ≡ true))
                    (Behind (left y))
                    (λ row (j, above_y). (
                      j,
                      above-shrinks M.key M.less served.transitive served.irreflexive (M.key y) row
                          M.rows above_y j,
                    ))
                    (chosen (some (M.key y))) (served.behind (M.key y)) in
                more_pages fuel after rows (M.cursor y) f here
                  (rw e (
                    full_cursor C lookup sdk input n predicate column dir M served.answers after ys
                      y sorted (k, c, s, d) (rw e at long)))
                  (ends h fuel (left y) (some (M.cursor y)) (chosen (some (M.key y)))
                    (next-Finds C lookup sdk input n predicate column dir M served.answers conn idle
                      filtered sorted directed (M.cursor y) (M.key y) (chosen (some (M.key y))) s
                      (served.resumed (M.key y)))
                    next (omega arith))
          ]
        ]

    -- Following the cursors ends on every server that honours the predicates of the two statements,
    -- whatever it sends of the rows and in whatever order, though sort keys repeat and pages are
    -- empty: for a select with a predicate, in either direction, outside a transaction, of rows that
    -- can be read, whose keys have a strict order, one page more than there are rows is enough.
    pub read_pages_ends :
        All IsReadable M.rows
        → (fuel : ℕ) → length M.rows < fuel
        → (values : List Value) × (read_pages C lookup sdk input n fuel conn none ≡ some values)
    read_pages_ends h fuel m =
        ends h fuel (length M.rows) none (chosen none)
          (first-Finds C lookup sdk input n predicate column dir M served.answers conn idle filtered
            sorted directed (chosen none) served.first)
          (All-imp (λ row. In row M.rows) (Behind (length M.rows))
            (λ row i.
              (i, above-bounded M.key M.less served.transitive served.irreflexive row M.rows i))
            (chosen none) served.selected)
          m
