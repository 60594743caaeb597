-- ===== src/Op/UpdateByKey/Target.antt =====
-- The record that an update names, whatever its assignments and predicates bind.
use toasty_driver_surreal.Prelude.{
  String, ◌<>◌, Bool, true, false, List, [], ◌∷◌, ◌++◌, some, ◌≡◌, ap, sym, ◌∙◌, subst,
}
use toasty_driver_surreal.Error.{Result, ok, >>=-eq-ok, ok-injective}
use toasty_driver_surreal.Schema.{Column, Table, Catalog}
use toasty_driver_surreal.Value.{Value, SurValue, is_null}
use toasty_driver_surreal.Value.Codec.{Codec}
use toasty_driver_surreal.Value.Encode.{to_surreal_for_column}
use toasty_driver_surreal.RecordId.{RecordId, record_id, to_value}
use toasty_driver_surreal.Expr.{Expr, ExprContext, Binds, escape_ident}
use toasty_driver_surreal.Expr.Fragment.Numbering.{bound}
use toasty_driver_surreal.Expr.Fragment.Named.{
  IsNumbered, nothing-IsNumbered, push-IsNumbered, bound-rid,
}
use toasty_driver_surreal.Op.DeleteByKey.{add_predicate}
use toasty_driver_surreal.Op.DeleteByKey.Target.{add_predicate-IsNumbered}
use toasty_driver_surreal.Op.Write.Assign.{
  Assignment, Assignments, append_list, with_placeholder, clear_or_set, set_value,
}
use toasty_driver_surreal.Op.UpdateByKey.{
  UpdateByKey, update_assignment, update_sets, update_statement, unsupported_assignment,
}

-- Whatever a step makes of numbered binds is numbered.
abbrev pub KeepsNumbers : {A : Type 0} → Binds → Result (A × Binds) → Type 0
KeepsNumbers binds made =
    (a : _) (after : Binds) → IsNumbered binds → made ≡ ok (a, after) → IsNumbered after

module _ (C : Codec) where
  pub with_placeholder-KeepsNumbers :
      (stored : Result SurValue) (binds : Binds) (text : String → String)
      → KeepsNumbers binds (with_placeholder C stored binds text)
  with_placeholder-KeepsNumbers stored binds text t after n h =
      let (v, e, made) = >>=-eq-ok stored _ h in
      subst IsNumbered (ap (λ (x : String × Binds). x.1) (ok-injective made))
        (push-IsNumbered binds v n)

  clear_or_set-KeepsNumbers :
      (null : Bool) (column : Column) (v : Value) (binds : Binds)
      → KeepsNumbers binds (clear_or_set C null column v binds)
  unfolding clear_or_set
  clear_or_set-KeepsNumbers true column v binds =
      λ t after n h. subst IsNumbered (ap (λ (x : String × Binds). x.1) (ok-injective h)) n
  clear_or_set-KeepsNumbers false column v binds =
      with_placeholder-KeepsNumbers (to_surreal_for_column C v column) binds
        (λ p. escape_ident column.name <> " = " <> p)

  set_value-KeepsNumbers :
      (column : Column) (v : Value) (binds : Binds)
      → KeepsNumbers binds (set_value C column v binds)
  unfolding set_value
  set_value-KeepsNumbers column v binds = clear_or_set-KeepsNumbers (is_null v) column v binds

  module _ (debug_assignment : Assignment → String) where
    update_assignment-KeepsNumbers :
        (column : Column) (a : Assignment) (binds : Binds)
        → KeepsNumbers binds (update_assignment C debug_assignment column a binds)
    unfolding update_assignment unsupported_assignment
    update_assignment-KeepsNumbers column (Assignment.set (Expr.value v)) binds =
        set_value-KeepsNumbers column v binds
    update_assignment-KeepsNumbers column (Assignment.add (Expr.value v)) binds =
        with_placeholder-KeepsNumbers (to_surreal_for_column C v column) binds
          (λ p. escape_ident column.name <> " = " <> escape_ident column.name <> " + " <> p)
    update_assignment-KeepsNumbers column (Assignment.subtract (Expr.value v)) binds =
        with_placeholder-KeepsNumbers (to_surreal_for_column C v column) binds
          (λ p. escape_ident column.name <> " = " <> escape_ident column.name <> " - " <> p)
    update_assignment-KeepsNumbers column (Assignment.append (Expr.value v)) binds =
        with_placeholder-KeepsNumbers (append_list C v column) binds
          (λ p. escape_ident column.name <> " += " <> p)
    update_assignment-KeepsNumbers column a binds = λ t after n h. cc

    module _ (catalog : Catalog) where
      update_sets-IsNumbered :
          (table : Table) (assignments : Assignments) (before after : List String × Binds)
          → IsNumbered before.1
          → update_sets C debug_assignment catalog table assignments before ≡ ok after
          → IsNumbered after.1
      unfolding update_sets
      update_sets-IsNumbered table [] before after n h =
          subst (λ (x : List String × Binds). IsNumbered x.1) (ok-injective h) n
      update_sets-IsNumbered table ((projection, a) ∷ rest) (sets, binds) after n h =
          let column = catalog.resolve table projection in
          let ((text, next), made, more) =
            >>=-eq-ok (update_assignment C debug_assignment column a binds) _ h in
          update_sets-IsNumbered table rest (sets ++ text ∷ [], next) after
            (update_assignment-KeepsNumbers column a binds text next n made) more

      -- Whatever an update assigns, and whatever its filter and condition bind, `$rid` in its
      -- statement is bound to the record id of its key: no parameter of an assignment or of a
      -- predicate takes its name.
      pub update_statement-rid :
          (cx : ExprContext) (op : UpdateByKey) (key : Value) (sql : String) (binds : Binds)
          → update_statement C debug_assignment catalog cx op key ≡ ok (sql, binds)
          → (rid : RecordId) × (record_id C op.table key ≡ ok rid)
            × (bound "rid" binds ≡ some (to_value rid))
      unfolding update_statement
      update_statement-rid cx op key sql binds h =
          let (s, p, h₁) =
            >>=-eq-ok (update_sets C debug_assignment catalog op.table op.assignments ([], [])) _
              h in
          let (a, q, h₂) = >>=-eq-ok (add_predicate C cx op.table op.filter ([], s.1)) _ h₁ in
          let (b, r, h₃) = >>=-eq-ok (add_predicate C cx op.table op.condition a) _ h₂ in
          let (rid, k, h₄) = >>=-eq-ok (record_id C op.table key) _ h₃ in
          let assigned =
            update_sets-IsNumbered op.table op.assignments ([], []) s nothing-IsNumbered p in
          let filtered = add_predicate-IsNumbered C cx op.table op.filter ([], s.1) a assigned q in
          let numbered = add_predicate-IsNumbered C cx op.table op.condition a b filtered r in
          (
            rid,
            k,
            ap (λ (x : String × Binds). bound "rid" x.1) (sym (ok-injective h₄))
                ∙ bound-rid b.1 (to_value rid) numbered,
          )
