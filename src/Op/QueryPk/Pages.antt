-- ===== src/Op/QueryPk/Pages.antt =====
-- The pages of a select on a server that answers in the order of distinct sort keys.
use mathlib.Core.List.{append_assoc, map-append}
use toasty_driver_surreal.Prelude.{
  ℕ, zero, suc, ◌<◌, String, ◌<>◌, true, false, List, [], ◌∷◌, ◌++◌, Option, none, some, subst, ◌≡◌,
  refl, ap, sym, ◌∙◌, inl, inr, length, length-append, All-append_left, All-append_right, take, All,
  map, arith,
}
use toasty_driver_surreal.Text.{decimal}
use toasty_driver_surreal.Error.{ok}
use toasty_driver_surreal.Schema.{Column}
use toasty_driver_surreal.Value.{Value, SurValue, Object}
use toasty_driver_surreal.Value.Codec.{Codec}
use toasty_driver_surreal.Value.Encode.{to_surreal}
use toasty_driver_surreal.Conn.Sdk.{done, Sdk}
use toasty_driver_surreal.Conn.Session.{Connection}
use toasty_driver_surreal.Op.QueryPk.{Direction, KeysetSelect, effective_order}
use toasty_driver_surreal.Op.QueryPk.Slices.{page, above, Ascending, above-key}
use toasty_driver_surreal.Op.QueryPk.Follow.{read_pages, follow, first_text, next_text}
use toasty_driver_surreal.Op.QueryPk.Found.{
  Matching, Readable, Answers, short_cursor, full_cursor, page_response, Finds, first-Finds,
  next-Finds,
}

module _ (C : Codec) (lookup : Object → String → Option SurValue) {S T R : Type 0} (sdk : Sdk S T R)
    (input : KeysetSelect) (n : ℕ) (predicate : String) (column : Column) (dir : Direction)
    (M : Matching R) where
  -- The server answers the two statements as SurrealQL says: with at most `n` rows in the order of
  -- the keys, of all that the predicate selects or of those that come behind the bound cursor. The
  -- order of the keys, in the direction of the select, is asymmetric, and no two rows have one key.
  pub record IsServed (conn : Connection S T) : Type 0 where
    pub asymmetric : (a b : SurValue) → M.less a b ≡ true → M.less b a ≡ false
    pub ascending : Ascending M.key M.less M.rows
    pub first :
        sdk.query (first_text input predicate n dir) input.binds conn.server
        ≡ (done (M.answer (take n M.rows)), conn.server)
    pub resumed :
        (c : SurValue)
        → sdk.query
            (next_text input predicate n dir)
            (input.binds ++ ("p" <> decimal (length input.binds), c) ∷ [])
            conn.server
          ≡ (done (M.answer (take n (above M.key M.less c M.rows))), conn.server)
    pub answers : Answers C lookup sdk input n predicate column dir M

  module _ (conn : Connection S T) (served : IsServed conn) (idle : conn.transaction ≡ none)
      (filtered : input.predicate ≡ some predicate) (sorted : input.sort_column ≡ some column)
      (directed : effective_order input.order true ≡ some dir) where
    abbrev FindsHere : Option Value → List Object → Type 0
    FindsHere =
        Finds C lookup sdk input n predicate column dir M served.answers conn idle filtered sorted
          directed

    abbrev IsReadable : Object → Type 0
    IsReadable = Readable C lookup sdk input n predicate column dir M

    next-FindsHere :
        (xs : List Object) (x : Object) (zs : List Object)
        → to_surreal C (M.cursor x) ≡ ok (M.key x)
        → M.rows ≡ xs ++ x ∷ zs
        → FindsHere (some (M.cursor x)) (take n zs)
    next-FindsHere xs x zs stored split =
        let behind : above M.key M.less (M.key x) M.rows ≡ zs =
          ap (above M.key M.less (M.key x)) split
          ∙ above-key M.key M.less served.asymmetric xs x zs
              (subst (Ascending M.key M.less) split served.ascending) in
        subst (λ l. FindsHere (some (M.cursor x)) (take n l)) behind
          (next-Finds C lookup sdk input n predicate column dir M served.answers conn idle filtered
            sorted directed (M.cursor x) (M.key x) (take n (above M.key M.less (M.key x) M.rows))
            stored (served.resumed (M.key x)))

    reads :
        0 < n
        → (fuel : ℕ) (ys : List Object) (after : Option Value) (read : List Object)
        → FindsHere after (take n ys)
        → M.rows ≡ read ++ ys
        → All IsReadable ys
        → length ys < fuel
        → read_pages C lookup sdk input n fuel conn after ≡ some (map M.decoded ys)
    unfolding read_pages follow
    reads pos zero ys after read f e h m = absurd (omega arith)
    reads pos (suc fuel) ys after read f e h m = elim (page n ys pos) [
      | inl (whole, short) ↦
          rw
            (
              f,
              whole,
              page_response C lookup sdk input n predicate column dir M served.answers after ys none
                  h
                  (short_cursor C lookup sdk input n predicate column dir M served.answers after ys
                    short),
            )
            refl
      | inr (xs, x, zs, front, all, full) ↦
          let split : ys ≡ (xs ++ x ∷ []) ++ zs = all ∙ sym (append_assoc xs (x ∷ []) zs) in
          let shown : All IsReadable ((xs ++ x ∷ []) ++ zs) = subst (All IsReadable) split h in
          let here = All-append_left IsReadable (xs ++ x ∷ []) zs shown in
          let ((k, c, s, d), nothing) = All-append_right IsReadable xs (x ∷ []) here in
          let before : M.rows ≡ (read ++ xs) ++ x ∷ zs =
            e ∙ ap (λ l. read ++ l) all ∙ sym (append_assoc read xs (x ∷ zs)) in
          let rest =
            reads pos fuel zs (some (M.cursor x)) ((read ++ xs) ++ x ∷ [])
              (next-FindsHere (read ++ xs) x zs s before)
              (before ∙ sym (append_assoc (read ++ xs) (x ∷ []) zs))
              (All-append_right IsReadable (xs ++ x ∷ []) zs shown)
              (omega (arith, ap length all, length-append xs (x ∷ zs))) in
          rw
            (
              f,
              front,
              page_response C lookup sdk input n predicate column dir M served.answers after
                  (xs ++ x ∷ []) (some (M.cursor x)) here
                  (full_cursor C lookup sdk input n predicate column dir M served.answers after xs x
                    sorted (k, c, s, d) (ground (arith, ap length (sym front) ∙ full))),
              rest,
            )
            (ap some
              (sym (map-append M.decoded (xs ++ x ∷ []) zs) ∙ ap (map M.decoded) (sym split)))
    ]

    -- Reading page by page ends and misses nothing: on a server that answers the two statements of
    -- the select with rows in the order of distinct sort keys, each of which can be decoded and
    -- whose key is read and stored as its cursor, for a select with a predicate, in either direction,
    -- outside a transaction, with pages of at least one row, following the cursors from the first
    -- page takes at most one page more than there are rows, and gives the decoded rows, each once
    -- and in order.
    pub read_pages_whole :
        0 < n
        → All IsReadable M.rows
        → (fuel : ℕ) → length M.rows < fuel
        → read_pages C lookup sdk input n fuel conn none ≡ some (map M.decoded M.rows)
    read_pages_whole pos h fuel m =
        reads pos fuel M.rows none []
          (first-Finds C lookup sdk input n predicate column dir M served.answers conn idle filtered
            sorted directed (take n M.rows) served.first)
          refl h m
