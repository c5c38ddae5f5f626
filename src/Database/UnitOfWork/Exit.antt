-- ===== src/Database/UnitOfWork/Exit.antt =====
-- What leaving a unit of work does to its session, however the calls on the session end.
use backend_prod_ready.Prelude.{
  Bool, List, [], arith, false, true, ◌++◌, ◌||◌, ◌∷◌, ◌≡◌, append_assoc, ◌↔◌, ◌≢◌,
}
use backend_prod_ready.Exec.{Result, ok, raised}
use backend_prod_ready.Database.UnitOfWork.{
  Body, Call, CloseEnd, Outcomes, RollbackEnd, Uow, aexit, cleanup_delay, close_call,
  configure_for_shared_session, exception, rollback_call, success, sync_close_call, commit_call,
  slept, delay_cancelled, sync_failed, committed, failed,
}

-- The calls that were made on the session since a time before.
abbrev pub Made : Uow → Uow → List Call → Type 0
Made before after calls = after.calls ≡ before.calls ++ calls

abbrev pub delay_if : Bool → List Call
delay_if true = cleanup_delay ∷ []
delay_if false = []

abbrev pub close_calls : CloseEnd → List Call
close_calls CloseEnd.timed_out = close_call ∷ sync_close_call ∷ []
close_calls sync_failed = close_call ∷ sync_close_call ∷ []
close_calls _ = close_call ∷ []

-- An owned session is given up whatever happens but a cancellation of the delay: after the exit the
-- unit of work has no session.
pub aexit-releases :
    (o : Outcomes) (body : Body) (u : Uow)
    → o.delay_end ≡ slept
    → u.owns_session ≡ true
    → (aexit o body u).1.session ≡ false
unfolding aexit
aexit-releases o body u n owned = ground arith

abbrev pub ends_as : Body → Result (Unit {0}) (Unit {0})
ends_as success = ok tt
ends_as exception = raised tt

-- A unit of work over a shared session leaves it alone: it makes no call, keeps the session for its
-- owner, forgets its repositories, and raises exactly if the body did.
pub aexit_shared :
    (o : Outcomes) (body : Body) (u : Uow)
    → let shared = configure_for_shared_session u in
      let (r, after) = aexit o body shared in
      (r ≡ ends_as body)
      × (after.calls ≡ u.calls)
      × (after.session ≡ true)
      × (after.repositories ≡ 0)
unfolding aexit configure_for_shared_session
aexit_shared o success u = ground arith
aexit_shared o exception u = ground arith

abbrev pub is_rollback_timeout : RollbackEnd → Bool
is_rollback_timeout RollbackEnd.timed_out = true
is_rollback_timeout _ = false

-- After an exception in the body, an owned session that is open is not rolled back, as the import in
-- `__aexit__` fails: it is closed, after the delay if a timeout was seen before, and an exception leaves.
pub aexit_exception :
    (o : Outcomes) (u : Uow)
    → o.delay_end ≡ slept
    → u.owns_session ≡ true
    → u.session ≡ true
    → ((aexit o exception u).0 ≡ raised tt)
      × Made u (aexit o exception u).1 (delay_if u.timeout_occurred ++ close_calls o.close_end)
unfolding aexit
aexit_exception o u n owned open_session =
    let d = cleanup_delay ∷ [] in
    let c = close_call ∷ [] in
    (
      ground arith,
      ground (
        arith,
        append_assoc u.calls d c,
        append_assoc u.calls c (sync_close_call ∷ []),
        append_assoc u.calls (cleanup_delay ∷ close_call ∷ []) (sync_close_call ∷ []),
      ),
    )

-- A cancellation of the delay leaves the session open: it is not closed.
pub delay_cancelled_leaks :
    (o : Outcomes) (u : Uow)
    → o.delay_end ≡ delay_cancelled
    → u.owns_session ≡ true
    → u.session ≡ true
    → u.timeout_occurred ≡ true
    → ((aexit o exception u).0 ≡ raised tt)
      × Made u (aexit o exception u).1 (cleanup_delay ∷ [])
      × ((aexit o exception u).1.session ≡ true)
unfolding aexit
delay_cancelled_leaks o u cut owned open_session seen = (ground arith, ground arith, ground arith)

-- With `auto_commit`, a body that succeeds over an owned session that is open leaves the unit of
-- work without an exception exactly if the session committed and its close raised nothing that is
-- not handled, if no cancellation hits the delay.
pub aexit_success :
    (o : Outcomes) (u : Uow)
    → o.delay_end ≡ slept
    → u.owns_session ≡ true
    → u.session ≡ true
    → u.auto_commit ≡ true
    → ((aexit o success u).0 ≡ ok tt) ↔ (
        (o.commit_end ≡ committed)
        × (o.close_end ≢ CloseEnd.other_error)
        × (o.close_end ≢ CloseEnd.sync_failed))
unfolding aexit
aexit_success o u n owned open_session auto =
    (λ h. (ground arith, λ e. ground arith, λ e. ground arith), λ h. ground arith)

-- With `auto_commit` on an owned session that is open, a commit that the session fails raises,
-- and the calls made are the commit, a rollback and the close, with the delay before it if a
-- timeout was seen and no cancellation hits it.
pub aexit_commit_failed :
    (o : Outcomes) (u : Uow)
    → o.delay_end ≡ slept
    → u.owns_session ≡ true
    → u.session ≡ true
    → u.auto_commit ≡ true
    → o.commit_end ≡ failed
    → ((aexit o success u).0 ≡ raised tt)
      × Made u (aexit o success u).1 (
          commit_call
          ∷ rollback_call
          ∷ (delay_if (u.timeout_occurred || is_rollback_timeout o.rollback_end)
              ++ close_calls o.close_end))
unfolding aexit
aexit_commit_failed o u n owned open_session auto f =
    let c = close_call ∷ [] in
    let y = sync_close_call ∷ [] in
    (
      ground arith,
      ground (
        arith,
        append_assoc u.calls (commit_call ∷ []) (rollback_call ∷ []),
        append_assoc u.calls (commit_call ∷ rollback_call ∷ []) (cleanup_delay ∷ []),
        append_assoc u.calls (commit_call ∷ rollback_call ∷ []) c,
        append_assoc u.calls (commit_call ∷ rollback_call ∷ cleanup_delay ∷ []) c,
        append_assoc u.calls (commit_call ∷ rollback_call ∷ close_call ∷ []) y,
        append_assoc u.calls (commit_call ∷ rollback_call ∷ cleanup_delay ∷ close_call ∷ []) y,
      ),
    )
