-- ===== src/Op/DeleteByKey/Target.antt =====
-- The record that a deletion names, whatever its predicates bind.
use toasty_driver_surreal.Prelude.{String, List, [], Option, none, some, ◌≡◌, ap, sym, ◌∙◌}
use toasty_driver_surreal.Error.{ok, >>=-eq-ok, ok-injective}
use toasty_driver_surreal.Schema.{Table}
use toasty_driver_surreal.Value.{Value}
use toasty_driver_surreal.Value.Codec.{Codec}
use toasty_driver_surreal.RecordId.{RecordId, record_id, to_value}
use toasty_driver_surreal.Expr.{Expr, ExprContext, Binds}
use toasty_driver_surreal.Expr.Render.{render}
use toasty_driver_surreal.Expr.Fragment.Named.{
  IsNumbered, nothing-IsNumbered, bound-rid, render-IsNumbered,
}
use toasty_driver_surreal.Expr.Fragment.Numbering.{bound}
use toasty_driver_surreal.Op.DeleteByKey.{DeleteByKey, add_predicate, delete_statement}

module _ (C : Codec) (cx : ExprContext) where
  pub add_predicate-IsNumbered :
      (table : Table) (o : Option Expr) (before after : List String × Binds)
      → IsNumbered before.1
      → add_predicate C cx table o before ≡ ok after
      → IsNumbered after.1
  unfolding add_predicate
  add_predicate-IsNumbered table none before after n h =
      (n.0, ap (λ (x : List String × Binds). x.1) (sym (ok-injective h)) ∙ n.1)
  add_predicate-IsNumbered table (some e) before after n h =
      let (r, p, q) = >>=-eq-ok (render C cx table e before.1) _ h in
      let m = render-IsNumbered C cx table e before.1 r.1 r.0 n p in
      (m.0, ap (λ (x : List String × Binds). x.1) (sym (ok-injective q)) ∙ m.1)

  -- Whatever a deletion's filter and condition bind, `$rid` in its statement is bound to the record
  -- id of its key: no parameter of a predicate takes its name.
  delete_statement-rid :
      (op : DeleteByKey) (key : Value) (sql : String) (binds : Binds)
      → delete_statement C cx op key ≡ ok (sql, binds)
      → (rid : RecordId) × (record_id C op.table key ≡ ok rid)
        × (bound "rid" binds ≡ some (to_value rid))
  unfolding delete_statement
  delete_statement-rid op key sql binds h =
      let (a, p, h₁) = >>=-eq-ok (add_predicate C cx op.table op.filter ([], [])) _ h in
      let (b, q, h₂) = >>=-eq-ok (add_predicate C cx op.table op.condition a) _ h₁ in
      let (rid, r, h₃) = >>=-eq-ok (record_id C op.table key) _ h₂ in
      let n = add_predicate-IsNumbered op.table op.filter ([], []) a nothing-IsNumbered p in
      let m = add_predicate-IsNumbered op.table op.condition a b n q in
      (
        rid,
        r,
        ap (λ (x : String × Binds). bound "rid" x.1) (sym (ok-injective h₃))
            ∙ bound-rid b.1 (to_value rid) m,
      )
