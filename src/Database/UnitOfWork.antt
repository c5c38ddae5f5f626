-- ===== src/Database/UnitOfWork.antt =====
-- `BaseUnitOfWork` of backend/core/infrastructure/database/uow.py. The SQLAlchemy session is a
-- parameter: how each of its calls ends is given by an `Outcomes`, and the calls that are made are
-- recorded in order. `database_error_handler` and the timeout decorator turn one exception into
-- another and set the timeout flag; which exception leaves a method is not distinguished here.
pub mod Exit
pub mod Block
use backend_prod_ready.Prelude.{Bool, List, [], false, if◌then◌else◌, true, ℕ, ◌++◌, ◌∷◌}
use backend_prod_ready.Exec.{Exec, Result, ok, raised, ◌>>◌}

-- The creation of a session, the calls on it, and the delay before a close.
pub data Call : Type 0 where
  create_call commit_call rollback_call flush_call : Call
  close_call sync_close_call cleanup_delay : Call

pub data CommitEnd : Type 0 where
  -- an exception of the session; a timeout of the decorator, during the commit, or during the rollback
  -- after an exception; a cancellation from outside
  committed failed timed_out rollback_cut_off cancelled : CommitEnd

pub data RollbackEnd : Type 0 where
  -- TimeoutError; OSError or RuntimeError; any other Exception; CancelledError
  rolled_back timed_out broken other_error cancelled : RollbackEnd

pub data CloseEnd : Type 0 where
  -- TimeoutError, after which the forced close ends without an exception that is not handled, or with
  -- one; CancelledError; OSError or RuntimeError; any other exception
  closed timed_out sync_failed cancelled broken other_error : CloseEnd

-- How the delay before the close ends.
pub data DelayEnd : Type 0 where
  slept delay_cancelled : DelayEnd

pub record Outcomes : Type 0 where
  pub commit_end : CommitEnd
  pub rollback_end : RollbackEnd
  pub delay_end : DelayEnd
  pub close_end : CloseEnd

pub record Uow : Type 0 where
  -- `_session is not None`
  pub session : Bool
  pub owns_session : Bool
  pub auto_commit : Bool
  pub timeout_occurred : Bool
  -- the number of registered repositories
  pub repositories : ℕ
  -- the calls so far, the latest last
  pub calls : List Call

-- Any exception.
abbrev pub Action : Type 0
Action = Exec Uow (Unit {0}) (Unit {0})

unfoldable pub record_call : Call → Uow → Uow
record_call c u = record u { calls = u.calls ++ (c ∷ []) }

-- `configure_for_shared_session`
unfoldable pub configure_for_shared_session : Uow → Uow
configure_for_shared_session u = record u {
  session = true;
  auto_commit = false;
  owns_session = false;
}

-- The handlers of `_safe_rollback`.
unfoldable pub safe_rollback_end : RollbackEnd → Action
safe_rollback_end rolled_back u = (ok tt, u)
safe_rollback_end RollbackEnd.timed_out u = (ok tt, record u { timeout_occurred = true })
safe_rollback_end RollbackEnd.broken u = (ok tt, u)
safe_rollback_end RollbackEnd.other_error u = (raised tt, u)
safe_rollback_end RollbackEnd.cancelled u = (raised tt, u)

-- `_safe_rollback`, which `__aexit__` does not reach
unfoldable pub safe_rollback : Outcomes → Action
unfolding safe_rollback_end record_call
safe_rollback o u =
    if u.session then safe_rollback_end o.rollback_end (record_call rollback_call u) else (ok tt, u)

-- The handlers of `rollback`: every Exception is logged, a cancellation is none.
unfoldable pub rollback_try : RollbackEnd → Action
rollback_try RollbackEnd.timed_out u = (ok tt, record u { timeout_occurred = true })
rollback_try RollbackEnd.cancelled u = (raised tt, u)
rollback_try _ u = (ok tt, u)

-- `rollback`
unfoldable pub rollback : Outcomes → Action
unfolding rollback_try record_call
rollback o u =
    if u.session then rollback_try o.rollback_end (record_call rollback_call u) else (raised tt, u)

-- How the `try` of `commit` ends: a failure rolls back and is raised again; a timeout of the
-- decorator sets the flag.
unfoldable pub commit_try : Outcomes → CommitEnd → Action
unfolding rollback record_call
commit_try o committed u = (ok tt, u)
commit_try o failed u = (raised tt, (rollback o u).1)
commit_try o CommitEnd.timed_out u = (raised tt, record u { timeout_occurred = true })
commit_try o rollback_cut_off u =
    (raised tt, record (record_call rollback_call u) { timeout_occurred = true })
commit_try o CommitEnd.cancelled u = (raised tt, u)

-- `commit`
unfoldable pub commit : Outcomes → Action
unfolding commit_try record_call
commit o u =
    if u.session then commit_try o o.commit_end (record_call commit_call u) else (raised tt, u)

-- The handlers of `_cleanup`, its `finally` and the line after it.
unfoldable pub close_try : CloseEnd → Action
unfolding record_call
close_try closed u = (ok tt, record u { session = false; repositories = 0 })
close_try CloseEnd.timed_out u =
    (ok tt, record (record_call sync_close_call u) { session = false; repositories = 0 })
close_try sync_failed u = (raised tt, record (record_call sync_close_call u) { session = false })
close_try CloseEnd.cancelled u = (ok tt, record u { session = false; repositories = 0 })
close_try CloseEnd.broken u = (ok tt, record u { session = false; repositories = 0 })
close_try CloseEnd.other_error u = (raised tt, record u { session = false })

-- The delay before a close, if a timeout was seen; a cancellation leaves `_cleanup` there.
unfoldable pub delay : DelayEnd → Action
unfolding record_call
delay slept u = (ok tt, if u.timeout_occurred then record_call cleanup_delay u else u)
delay delay_cancelled u =
    if u.timeout_occurred then (raised tt, record_call cleanup_delay u) else (ok tt, u)

-- `_cleanup`
unfoldable pub cleanup : Outcomes → Action
unfolding delay close_try record_call
cleanup o u =
    if u.session
    then (delay o.delay_end >> (λ u'. close_try o.close_end (record_call close_call u'))) u
    else (ok tt, record u { repositories = 0 })

-- How the body of the `async with` ended.
pub data Body : Type 0 where
  success exception : Body

-- The `try` of `__aexit__`: after an exception its import of a TimeoutException, which
-- http_exceptions.py does not define, raises ImportError before anything is done.
unfoldable pub exit_try : Outcomes → Body → Action
unfolding commit
exit_try o success u = if u.auto_commit then commit o u else (ok tt, u)
exit_try o exception u = (raised tt, u)

-- The `finally` of `__aexit__`
unfoldable pub exit_finally : Outcomes → Action
unfolding cleanup
exit_finally o u = if u.owns_session then cleanup o u else (ok tt, record u { repositories = 0 })

-- What a `finally` raises replaces what was raised before it.
abbrev pub after_finally :
    Result (Unit {0}) (Unit {0})
    → Result (Unit {0}) (Unit {0}) × Uow
    → Result (Unit {0}) (Unit {0}) × Uow
after_finally r (ok _, u) = (r, u)
after_finally r (raised e, u) = (raised e, u)

-- `__aexit__`
unfoldable pub aexit : Outcomes → Body → Action
unfolding exit_try exit_finally
aexit o body u = let (r, u') = exit_try o body u in after_finally r (exit_finally o u')
