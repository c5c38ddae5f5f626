-- ===== src/Database/UnitOfWork/Block.antt =====
-- A whole `async with` over a unit of work of backend/core/infrastructure/database/uow.py: entering,
-- the methods that the body calls, and the exit.
pub mod Kept
pub mod Sessions
use backend_prod_ready.Prelude.{
  Bool, List, Option, [], if◌then◌else◌, none, some, true, ℕ, ◌&&◌, ◌∷◌,
}
use backend_prod_ready.Exec.{ok, raised}
use backend_prod_ready.Database.UnitOfWork.{
  Action, Body, Outcomes, Uow, aexit, close_call, commit, create_call, exception, flush_call,
  record_call, rollback,
}

-- How the steps of `__aenter__` end: whether there is a session factory, whether it creates a session,
-- and the repositories that the subclass registers, if it raises nothing.
pub record EnterEnds : Type 0 where
  pub has_factory : Bool
  pub creates : Bool
  pub registers : Option ℕ
  -- the timeout of the decorator cuts off the close after a failure
  pub close_cut_off : Bool

-- The session of the `try` of `__aenter__`.
unfoldable pub open_session : EnterEnds → Action
unfolding record_call
open_session e u =
    if u.owns_session
    then (if e.has_factory && e.creates
        then (ok tt, record (record_call create_call u) { session = true })
        else (raised tt, u))
    else (ok tt, u)

-- Its `except`: an owned session is closed, whatever the close raises, and stays where it is.
unfoldable pub enter_failed : EnterEnds → Action
unfolding record_call
enter_failed e u =
    if u.session && u.owns_session
    then (
      raised tt,
      record (record_call close_call u) {
        timeout_occurred = if e.close_cut_off then true else u.timeout_occurred;
      },
    )
    else (raised tt, u)

-- `__aenter__`
unfoldable pub aenter : EnterEnds → Action
unfolding open_session enter_failed
aenter e u = elim (open_session e u).0 [
  | raised _ ↦ enter_failed e (open_session e u).1
  | ok _ ↦ elim e.registers [
    | none ↦ enter_failed e (open_session e u).1
    | some n ↦ (ok tt, record (open_session e u).1 { repositories = n })
  ]
]

-- `flush`: the session's raises, or is cancelled from outside; or the decorator's timeout cancels it
pub data FlushEnd : Type 0 where
  flushed flush_failed flush_cancelled : FlushEnd

unfoldable pub flush_try : FlushEnd → Action
flush_try flushed u = (ok tt, u)
flush_try flush_failed u = (raised tt, u)
flush_try flush_cancelled u = (raised tt, record u { timeout_occurred = true })

unfoldable pub flush : FlushEnd → Action
unfolding flush_try record_call
flush e u = if u.session then flush_try e (record_call flush_call u) else (raised tt, u)

-- A call of the body on the unit of work.
pub data Use : Type 0 where
  commit_use rollback_use : Outcomes → Use
  flush_use : FlushEnd → Use

unfoldable pub use_once : Use → Action
unfolding commit rollback flush
use_once (commit_use o) = commit o
use_once (rollback_use o) = rollback o
use_once (flush_use e) = flush e

-- A body that catches nothing: its calls, up to one that raises, and then its own end.
unfoldable pub run_body : List Use → Body → Uow → Body × Uow
unfolding use_once
run_body [] body u = (body, u)
run_body (x ∷ xs) body u = elim (use_once x u).0 [
  | ok _ ↦ run_body xs body (use_once x u).1
  | raised _ ↦ (exception, (use_once x u).1)
]

-- `async with uow: …`; an exception in entering leaves the body and the exit out
unfoldable pub block : EnterEnds → List Use → Body → Outcomes → Uow → Uow
unfolding aenter run_body aexit
block e xs body o u = elim (aenter e u).0 [
  | raised _ ↦ (aenter e u).1
  | ok _ ↦ let (end, u') = run_body xs body (aenter e u).1 in (aexit o end u').1
]
