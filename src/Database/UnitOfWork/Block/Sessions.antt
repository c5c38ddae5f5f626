-- ===== src/Database/UnitOfWork/Block/Sessions.antt =====
-- The sessions that a unit of work creates, and its calls to close them.
use backend_prod_ready.Prelude.{
  List, [], arith, ◌++◌, ◌+◌, ◌∷◌, ◌≡◌, if_cases, refl, true, ◌∙◌, false,
}
use backend_prod_ready.Exec.{Result, ok, raised}
use backend_prod_ready.Database.UnitOfWork.{
  Outcomes, Uow, delay, slept, cleanup_delay, close_call, create_call, record_call, sync_close_call,
  Body, cleanup, close_try, exit_try, aexit, exit_finally, after_finally,
}
use backend_prod_ready.Database.UnitOfWork.Block.{
  Use, run_body, open_session, EnterEnds, aenter, block, enter_failed,
}
use backend_prod_ready.Database.UnitOfWork.Block.Kept.{
  closes, created, exit_try-After, run_body-After, closes-append, created-append,
}

-- One session was closed.
abbrev Closed : Uow → Uow → Type 0
Closed before after =
    (created after.calls ≡ created before.calls) × (closes after.calls ≡ closes before.calls + 1)

abbrev Closes : Uow → Result (Unit {0}) (Unit {0}) × Uow → Type 0
Closes before r = Closed before r.1

cleanup-Closed :
    (o : Outcomes) (u : Uow) → o.delay_end ≡ slept → u.session ≡ true → Closed u (cleanup o u).1
unfolding cleanup delay close_try record_call
cleanup-Closed o u n h = ground (
  arith,
  created-append u.calls (close_call ∷ []),
  closes-append u.calls (close_call ∷ []),
  created-append u.calls (cleanup_delay ∷ []),
  closes-append u.calls (cleanup_delay ∷ []),
  created-append (u.calls ++ cleanup_delay ∷ []) (close_call ∷ []),
  closes-append (u.calls ++ cleanup_delay ∷ []) (close_call ∷ []),
  created-append (u.calls ++ close_call ∷ []) (sync_close_call ∷ []),
  closes-append (u.calls ++ close_call ∷ []) (sync_close_call ∷ []),
  created-append (u.calls ++ cleanup_delay ∷ [] ++ close_call ∷ []) (sync_close_call ∷ []),
  closes-append (u.calls ++ cleanup_delay ∷ [] ++ close_call ∷ []) (sync_close_call ∷ []),
)

after_finally-state :
    (r : Result (Unit {0}) (Unit {0})) (c : Result (Unit {0}) (Unit {0}) × Uow)
    → (after_finally r c).1 ≡ c.1
after_finally-state r (ok t, u) = refl
after_finally-state r (raised t, u) = refl

exit_finally-Closed :
    (o : Outcomes) (u : Uow)
    → o.delay_end ≡ slept
    → u.session ≡ true
    → u.owns_session ≡ true
    → Closed u (exit_finally o u).1
unfolding exit_finally
exit_finally-Closed o u n open_now owned =
    if_cases (Closes u) u.owns_session _ _ (λ h. cleanup-Closed o u n open_now)
      (λ h. absurd (cc (h, owned)))

aexit-Closed :
    (o : Outcomes) (body : Body) (u : Uow)
    → o.delay_end ≡ slept
    → u.session ≡ true
    → u.owns_session ≡ true
    → Closed u (aexit o body u).1
unfolding aexit
aexit-Closed o body u n open_now owned =
    let tried = exit_try o body u in
    let (made, closed_before, same, owner) = exit_try-After o body u in
    let (made', closed_after) = exit_finally-Closed o tried.1 n (same ∙ open_now) (owner ∙ owned) in
    rw (after_finally-state tried.0 (exit_finally o tried.1))
      (made' ∙ made, omega (arith, closed_after, closed_before))

-- What entering leads to from an owned unit of work without a session: an open session that it
-- created, or no more open sessions than before.
IsEntered : Uow → Result (Unit {0}) (Unit {0}) × Uow → Type 0
IsEntered u (ok _, v) =
    (created v.calls ≡ created u.calls + 1)
    × (closes v.calls ≡ closes u.calls)
    × (v.session ≡ true)
    × (v.owns_session ≡ true)
IsEntered u (raised _, v) = created v.calls + closes u.calls ≡ closes v.calls + created u.calls

aenter-IsEntered :
    (e : EnterEnds) (u : Uow) → u.owns_session ≡ true → u.session ≡ false → IsEntered u (aenter e u)
unfolding aenter open_session enter_failed IsEntered record_call
aenter-IsEntered e u owned no_session = ground (
  arith,
  created-append u.calls (create_call ∷ []),
  closes-append u.calls (create_call ∷ []),
  created-append (u.calls ++ create_call ∷ []) (close_call ∷ []),
  closes-append (u.calls ++ create_call ∷ []) (close_call ∷ []),
)

-- An `async with` over an owned unit of work without a session calls close as often as it creates a
-- session, however entering, the calls of the body, the body and the exit end, if no cancellation hits
-- the delay before the close: the numbers of sessions created and of calls to close grow alike.
pub block_balanced :
    (e : EnterEnds) (xs : List Use) (body : Body) (o : Outcomes) (u : Uow)
    → o.delay_end ≡ slept
    → u.owns_session ≡ true
    → u.session ≡ false
    → created (block e xs body o u).calls + closes u.calls
      ≡ closes (block e xs body o u).calls + created u.calls
unfolding block IsEntered
block_balanced e xs body o u n owned no_session =
    balanced (aenter e u) (aenter-IsEntered e u owned no_session)
  where
    balanced :
        (c : Result (Unit {0}) (Unit {0}) × Uow)
        → IsEntered u c
        → created
              (elim c.0 as (λ _. Uow) [
                | raised _ ↦ c.1
                | ok _ ↦ (let (end, u') = run_body xs body c.1 in (aexit o end u').1)
              ]).calls
            + closes u.calls
          ≡ closes
              (elim c.0 as (λ _. Uow) [
                | raised _ ↦ c.1
                | ok _ ↦ (let (end, u') = run_body xs body c.1 in (aexit o end u').1)
              ]).calls
            + created u.calls
    balanced (ok t, v) (made, closed_before, open_now, owner) =
        let ran = run_body xs body v in
        let (a, b, c, d) = run_body-After xs body v in
        let (made', closed_after) = aexit-Closed o ran.0 ran.1 n (c ∙ open_now) (d ∙ owner) in
        omega (arith, made, closed_before, a, b, made', closed_after)
    balanced (raised t, v) h = h
