-- ===== src/Driver/Handle.antt =====
-- The handle that the clones of a driver share.
use toasty_driver_surreal.Prelude.{
  List, [], ◌∷◌, Option, none, some, ◌≡◌, refl, sym, ◌⊎◌, inl, inr, All, subst,
}
use toasty_driver_surreal.Error.{Result, ok, >>=-eq-ok, ok-injective}
use toasty_driver_surreal.Conn.Sdk.{Answer, done, failed}
use toasty_driver_surreal.Conn.Failures.{classify_error, map_err}
use toasty_driver_surreal.Driver.{
  SurrealDb, World, Shared, select, opened, session_from, session, endpoint,
}

module _ {W H S : Type 0} (world : World W H S) where
  -- The drivers that share a slot ask for sessions, one after the other.
  unfoldable pub session_all : List SurrealDb → Shared W H → List (Result S) × Shared W H
  unfolding session
  session_all [] shared = ([], shared)
  session_all (driver ∷ drivers) shared =
      let (first, next) = session world driver shared in
      let (rest, after) = session_all drivers next in (first ∷ rest, after)

  -- The session, if there is one, is a clone of the handle.
  abbrev pub IsCloneOf : H → Result S → Type 0
  IsCloneOf h result = (s : S) → result ≡ ok s → (w : W) × (s ≡ (world.clone h w).0)

  -- The slot holds the handle, and the session is a clone of it.
  abbrev Gives : H → Result S × Shared W H → Type 0
  Gives h (result, shared) = (shared.handle ≡ some h) × IsCloneOf h result

  select-Gives : (driver : SurrealDb) (h : H) (w : W) → Gives h (select world driver h w)
  unfolding select
  select-Gives driver h w = (
    refl,
    λ s e.
        let (u, p, q) =
          >>=-eq-ok
            (map_err classify_error
              (world.use_ns_db (world.clone h w).0 driver.namespace driver.database
                (world.clone h w).1).0)
            _ e in
        (w, sym (ok-injective q)),
  )

  -- no handle and no session
  abbrev pub IsClosed : Result S → Type 0
  IsClosed result = (s : S) → ¬ (result ≡ ok s)

  abbrev GivesNone : Result S × Shared W H → Type 0
  GivesNone (result, shared) = (shared.handle ≡ none) × IsClosed result

  opened-Gives :
      (driver : SurrealDb) (a : Answer H × W)
      → GivesNone (opened world driver a) ⊎ ((h : H) × Gives h (opened world driver a))
  unfolding opened
  opened-Gives driver (failed failure, w) = inl (refl, λ s e. cc)
  opened-Gives driver (done h, w) = inr (h, select-Gives driver h w)

  session-Gives :
      (driver : SurrealDb) (shared : Shared W H) (h : H)
      → shared.handle ≡ some h
      → Gives h (session world driver shared)
  unfolding session session_from
  session-Gives driver shared h e =
      subst (λ o. Gives h (session_from world driver o shared.state)) (sym e)
        (select-Gives driver h shared.state)

  first-Gives :
      (driver : SurrealDb) (shared : Shared W H)
      → shared.handle ≡ none
      → GivesNone (session world driver shared) ⊎ ((h : H) × Gives h (session world driver shared))
  unfolding session session_from
  first-Gives driver shared e =
      subst
        (λ o.
          GivesNone (session_from world driver o shared.state)
          ⊎ ((h : H) × Gives h (session_from world driver o shared.state)))
        (sym e) (opened-Gives driver (world.connect (endpoint driver.engine) shared.state))

  -- The slot holds the handle in the end, and every session is a clone of it.
  abbrev Shares : H → List (Result S) × Shared W H → Type 0
  Shares h (results, after) = (after.handle ≡ some h) × All (IsCloneOf h) results

  -- The slot is empty in the end, and there are no sessions.
  abbrev Opens : List (Result S) × Shared W H → Type 0
  Opens (results, after) = (after.handle ≡ none) × All IsClosed results

  held :
      (drivers : List SurrealDb) (shared : Shared W H) (h : H)
      → shared.handle ≡ some h
      → Shares h (session_all drivers shared)
  unfolding session_all
  held [] shared h e = (e, tt)
  held (driver ∷ drivers) shared h e =
      let (kept, clone) = session-Gives driver shared h e in
      let (last, clones) = held drivers (session world driver shared).1 h kept in
      (last, (clone, clones))

  opens :
      (drivers : List SurrealDb) (shared : Shared W H)
      → shared.handle ≡ none
      → Opens (session_all drivers shared) ⊎ ((h : H) × Shares h (session_all drivers shared))
  unfolding session_all
  opens [] shared e = inl (e, tt)
  opens (driver ∷ drivers) shared e = elim (first-Gives driver shared e) [
    | inr (h, (kept, clone)) ↦
        let (last, clones) = held drivers (session world driver shared).1 h kept in
        inr (h, (last, (clone, clones)))
    | inl (empty, closed) ↦ elim (opens drivers (session world driver shared).1 empty) [
      | inl (last, rest) ↦ inl (last, (closed, rest))
      | inr (h, (last, clones)) ↦ inr (h, (last, (λ s r. absurd (closed s r), clones)))
    ]
  ]

  -- However many clones of a driver ask for sessions, in whatever order and with whatever namespaces
  -- and databases, all the sessions are clones of one handle, which stays in the slot that they
  -- share; the slot is empty in the end only when it was empty and no session came about. A handle
  -- that the slot held at first is the one that stays.
  pub session_all-IsCloneOf :
      (drivers : List SurrealDb) (shared : Shared W H)
      → (((session_all drivers shared).1.handle ≡ none)
          × All IsClosed (session_all drivers shared).0
          × (shared.handle ≡ none))
        ⊎ ((h : H) × ((session_all drivers shared).1.handle ≡ some h)
            × All (IsCloneOf h) (session_all drivers shared).0
            × ((shared.handle ≡ none) ⊎ (shared.handle ≡ some h)))
  session_all-IsCloneOf drivers shared = by_slot shared.handle refl
    where
      by_slot :
          (slot : Option H)
          → shared.handle ≡ slot
          → (((session_all drivers shared).1.handle ≡ none)
              × All IsClosed (session_all drivers shared).0
              × (shared.handle ≡ none))
            ⊎ ((h : H) × ((session_all drivers shared).1.handle ≡ some h)
                × All (IsCloneOf h) (session_all drivers shared).0
                × ((shared.handle ≡ none) ⊎ (shared.handle ≡ some h)))
      by_slot (some h) e =
          let (last, clones) = held drivers shared h e in inr (h, last, clones, inr e)
      by_slot none e = elim (opens drivers shared e) [
        | inl (last, closed) ↦ inl (last, closed, e)
        | inr (h, (last, clones)) ↦ inr (h, last, clones, inl e)
      ]
