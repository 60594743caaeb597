-- ===== src/Conn/Exec/Started.antt =====
-- A read-only connection is in a transaction that was started read-only.
use toasty_driver_surreal.Prelude.{
  ap, none, some, Bool, true, false, List, [], ◌∷◌, Option, ◌≡◌, refl, sym, ◌∙◌, ◌++◌, ◌⊎◌, inl,
  inr, All, subst,
}
use toasty_driver_surreal.Conn.Sdk.{Sdk, Answer, done, failed}
use toasty_driver_surreal.Conn.Session.{Connection, new, begun, Transaction, TransactionMode}
use toasty_driver_surreal.Conn.Session.Lifecycle.{
  Phase, phase, is_ok, IsWellFormed, exec_transaction-IsWellFormed, with_fields,
}
use toasty_driver_surreal.Op.Keeps.{Keeps}
use toasty_driver_surreal.Conn.Exec.{Operation, Crates, exec, counted}
use toasty_driver_surreal.Conn.Exec.Dispatch.{exec-Keeps}

module _ (crates : Crates) {S T R : Type 0} (sdk : Sdk S T R) where
  -- a sequence of operations, whatever they answer
  unfoldable pub exec_all : Connection S T → List Operation → Connection S T
  unfolding exec
  exec_all conn [] = conn
  exec_all conn (op ∷ ops) = exec_all (exec crates sdk conn op).1 ops

  Keeps-IsWellFormed :
      (conn after : Connection S T) → Keeps conn after → IsWellFormed conn → IsWellFormed after
  Keeps-IsWellFormed conn after (t, r) h = rw (t, r) h

  exec-IsWellFormed :
      (conn : Connection S T) (op : Operation)
      → IsWellFormed conn
      → IsWellFormed (exec crates sdk conn op).1
  unfolding exec counted
  exec-IsWellFormed conn (Operation.transaction op) h =
      exec_transaction-IsWellFormed sdk crates.debug_mode conn.server conn.transaction
        conn.read_only op h
  exec-IsWellFormed conn op h =
      Keeps-IsWellFormed conn (exec crates sdk conn op).1 (exec-Keeps crates sdk conn op refl) h

  abbrev start_read_only : Operation
  start_read_only = Operation.transaction (Transaction.start none true TransactionMode.default)

  -- The operations do not end a transaction.
  abbrev ends : Operation → Bool
  ends (Operation.transaction Transaction.commit) = true
  ends (Operation.transaction Transaction.rollback) = true
  ends _ = false

  -- Among the operations is a start of a read-only transaction with success, and no end is behind it.
  abbrev pub IsStartedReadOnly : Connection S T → List Operation → Type 0
  IsStartedReadOnly conn ops =
      (front : List Operation) × (back : List Operation) × (ops ≡ front ++ start_read_only ∷ back)
      × (is_ok (exec crates sdk (exec_all conn front) start_read_only).0 ≡ true)
      × All (λ op. ends op ≡ false) back

  -- the mode after one operation
  abbrev From : Connection S T → Operation → Type 0
  From conn op =
      ((conn.read_only ≡ true) × (ends op ≡ false))
      ⊎ ((op ≡ start_read_only) × (is_ok (exec crates sdk conn op).0 ≡ true))

  begun-From :
      (server : S) (ro read_only : Bool) (a : Answer T × S)
      → IsWellFormed (with_fields sdk crates.debug_mode server none ro)
      → (begun sdk (with_fields sdk crates.debug_mode server none ro) read_only a).1.read_only
        ≡ true
      → (read_only ≡ true)
        × (is_ok
              (counted crates sdk
                (begun sdk (with_fields sdk crates.debug_mode server none ro) read_only a)).0
            ≡ true)
  unfolding begun counted
  begun-From server ro read_only (done t, s) w h = (h, refl)
  begun-From server ro read_only (failed f, s) w h = cc

  transaction-From :
      (server : S) (t : Option T) (ro : Bool) (op : Transaction)
      → IsWellFormed (with_fields sdk crates.debug_mode server t ro)
      → (exec crates sdk
          (with_fields sdk crates.debug_mode server t ro)
          (Operation.transaction op)).1.read_only
        ≡ true
      → From (with_fields sdk crates.debug_mode server t ro) (Operation.transaction op)
  unfolding exec counted
  transaction-From server t ro (Transaction.start (some i) r m) w h = inl (h, refl)
  transaction-From server t ro (Transaction.start none r (TransactionMode.other n)) w h =
      inl (h, refl)
  transaction-From server (some t) ro (Transaction.start none r TransactionMode.default) w h =
      inl (h, refl)
  transaction-From server none ro (Transaction.start none asked TransactionMode.default) w h =
      let (r, succeeded) = begun-From server ro asked (sdk.begin server) w h in
      inr (
        ap (λ b. Operation.transaction (Transaction.start none b TransactionMode.default)) r,
        succeeded,
      )
  transaction-From server none ro Transaction.commit w h = cc
  transaction-From server (some t) ro Transaction.commit w h = cc
  transaction-From server none ro Transaction.rollback w h = cc
  transaction-From server (some t) ro Transaction.rollback w h = cc
  transaction-From server t ro (Transaction.savepoint n) w h = inl (h, refl)
  transaction-From server t ro (Transaction.release_savepoint n) w h = inl (h, refl)
  transaction-From server t ro (Transaction.rollback_to_savepoint n) w h = inl (h, refl)

  exec-From :
      (conn : Connection S T) (op : Operation)
      → IsWellFormed conn
      → (exec crates sdk conn op).1.read_only ≡ true
      → From conn op
  exec-From conn (Operation.transaction op) w h =
      transaction-From conn.server conn.transaction conn.read_only op w h
  exec-From conn op w h = inl (sym (exec-Keeps crates sdk conn op refl).1 ∙ h, refl)

  -- the mode after operations: that from before, or that of a start among them
  FromAll : Connection S T → List Operation → Type 0
  FromAll conn ops =
      ((conn.read_only ≡ true) × All (λ op. ends op ≡ false) ops) ⊎ IsStartedReadOnly conn ops

  behind :
      (conn : Connection S T) (op : Operation) (ops : List Operation)
      → IsStartedReadOnly (exec crates sdk conn op).1 ops
      → IsStartedReadOnly conn (op ∷ ops)
  unfolding exec_all
  behind conn op ops (front, back, e, started, h) =
      (op ∷ front, back, ap (λ l. op ∷ l) e, started, h)

  exec_all-FromAll :
      (ops : List Operation) (conn : Connection S T)
      → IsWellFormed conn
      → (exec_all conn ops).read_only ≡ true
      → FromAll conn ops
  unfolding exec_all FromAll
  exec_all-FromAll [] conn w h = inl (h, tt)
  exec_all-FromAll (op ∷ ops) conn w h =
      elim (exec_all-FromAll ops (exec crates sdk conn op).1 (exec-IsWellFormed conn op w) h) [
        | inr started ↦ inr (behind conn op ops started)
        | inl (r, quiet) ↦ elim (exec-From conn op w r) [
          | inl (before, e) ↦ inl (before, (e, quiet))
          | inr (e, succeeded) ↦ inr (
            [],
            ops,
            ap (λ x. x ∷ ops) e,
            subst (λ x. is_ok (exec crates sdk conn x).0 ≡ true) e succeeded,
            quiet,
          )
        ]
      ]

  exec_all-IsWellFormed :
      (ops : List Operation) (conn : Connection S T)
      → IsWellFormed conn
      → IsWellFormed (exec_all conn ops)
  unfolding exec_all
  exec_all-IsWellFormed [] conn h = h
  exec_all-IsWellFormed (op ∷ ops) conn h =
      exec_all-IsWellFormed ops (exec crates sdk conn op).1 (exec-IsWellFormed conn op h)

  active_when :
      (server : S) (t : Option T) (ro : Bool)
      → IsWellFormed (with_fields sdk crates.debug_mode server t ro)
      → ro ≡ true
      → phase (with_fields sdk crates.debug_mode server t ro) ≡ Phase.active true
  active_when server none ro w h = cc
  active_when server (some t) ro w h = ap Phase.active h

  false-true : false ≡ true → ⊥
  false-true h = cc

  -- A connection that has been opened and has run any operations, with whatever the server
  -- answered, is read-only only in a transaction that was started read-only: when it is read-only, a
  -- transaction is open, and among the operations is a start of a read-only transaction that
  -- succeeded, with no commit and no rollback behind it.
  pub exec_all-IsStartedReadOnly :
      (server : S) (ops : List Operation)
      → (exec_all (new sdk server) ops).read_only ≡ true
      → (phase (exec_all (new sdk server) ops) ≡ Phase.active true)
        × IsStartedReadOnly (new sdk server) ops
  unfolding new FromAll
  exec_all-IsStartedReadOnly server ops h =
      let w = exec_all-IsWellFormed ops (new sdk server) refl in
      let conn = exec_all (new sdk server) ops in
      let started : FromAll (new sdk server) ops = exec_all-FromAll ops (new sdk server) refl h in
      (
        active_when conn.server conn.transaction conn.read_only w h,
        elim started [ inl (r, quiet) ↦ absurd (false-true r) | inr s ↦ s ],
      )
