-- ===== src/Database/UnitOfWork/Block/Kept.antt =====
-- The body of a unit of work, its commits, rollbacks and flushes, neither create nor close a session.
use backend_prod_ready.Prelude.{List, [], arith, ℕ, ◌++◌, ◌+◌, ◌∷◌, ◌≡◌, if_cases, refl, ◌∙◌}
use backend_prod_ready.Exec.{Result, ok, raised}
use backend_prod_ready.Database.UnitOfWork.{
  Call, Outcomes, Uow, cleanup_delay, close_call, commit, commit_call, commit_try, create_call,
  flush_call, record_call, rollback, rollback_call, rollback_try, sync_close_call, Body, CommitEnd,
  committed, rollback_cut_off, exception, exit_try, failed, success,
}
use backend_prod_ready.Database.UnitOfWork.Block.{
  FlushEnd, Use, commit_use, flush, flush_try, flush_use, rollback_use, run_body, use_once,
}

-- The sessions created and the closes, of some calls.
abbrev pub created : List Call → ℕ
created [] = 0
created (create_call ∷ calls) = created calls + 1
created (_ ∷ calls) = created calls

abbrev pub closes : List Call → ℕ
closes [] = 0
closes (close_call ∷ calls) = closes calls + 1
closes (_ ∷ calls) = closes calls

pub created-append : (xs ys : List Call) → created (xs ++ ys) ≡ created xs + created ys
created-append [] ys = omega arith
created-append (create_call ∷ xs) ys = omega (arith, created-append xs ys)
created-append (commit_call ∷ xs) ys = created-append xs ys
created-append (rollback_call ∷ xs) ys = created-append xs ys
created-append (flush_call ∷ xs) ys = created-append xs ys
created-append (close_call ∷ xs) ys = created-append xs ys
created-append (sync_close_call ∷ xs) ys = created-append xs ys
created-append (cleanup_delay ∷ xs) ys = created-append xs ys

pub closes-append : (xs ys : List Call) → closes (xs ++ ys) ≡ closes xs + closes ys
closes-append [] ys = omega arith
closes-append (create_call ∷ xs) ys = closes-append xs ys
closes-append (commit_call ∷ xs) ys = closes-append xs ys
closes-append (rollback_call ∷ xs) ys = closes-append xs ys
closes-append (flush_call ∷ xs) ys = closes-append xs ys
closes-append (close_call ∷ xs) ys = omega (arith, closes-append xs ys)
closes-append (sync_close_call ∷ xs) ys = closes-append xs ys
closes-append (cleanup_delay ∷ xs) ys = closes-append xs ys

-- A state after some calls with the same session, of which as many were created and closed.
abbrev pub After : Uow → Uow → Type 0
After before after =
    (created after.calls ≡ created before.calls)
    × (closes after.calls ≡ closes before.calls)
    × (after.session ≡ before.session)
    × (after.owns_session ≡ before.owns_session)

abbrev Leads : Uow → Result (Unit {0}) (Unit {0}) × Uow → Type 0
Leads before r = After before r.1

trans-After : (u v w : Uow) → After u v → After v w → After u w
trans-After u v w (a, b, c, d) (a', b', c', d') = (a' ∙ a, b' ∙ b, c' ∙ c, d' ∙ d)

rollback-After : (o : Outcomes) (u : Uow) → After u (rollback o u).1
unfolding rollback rollback_try record_call
rollback-After o u =
    ground (
      arith,
      created-append u.calls (rollback_call ∷ []),
      closes-append u.calls (rollback_call ∷ []),
    )

record_call-After : (u : Uow) → After u (record_call commit_call u)
unfolding record_call
record_call-After u =
    ground
      (arith, created-append u.calls (commit_call ∷ []), closes-append u.calls (commit_call ∷ []))

commit_try-After : (o : Outcomes) (e : CommitEnd) (u : Uow) → After u (commit_try o e u).1
unfolding commit_try record_call
commit_try-After o committed u = (refl, refl, refl, refl)
commit_try-After o failed u = rollback-After o u
commit_try-After o CommitEnd.timed_out u = (refl, refl, refl, refl)
commit_try-After o rollback_cut_off u =
    ground (
      arith,
      created-append u.calls (rollback_call ∷ []),
      closes-append u.calls (rollback_call ∷ []),
    )
commit_try-After o CommitEnd.cancelled u = (refl, refl, refl, refl)

commit-After : (o : Outcomes) (u : Uow) → After u (commit o u).1
unfolding commit
commit-After o u =
    if_cases (Leads u) u.session _ _
      (λ h.
        trans-After u (record_call commit_call u)
          (commit_try o o.commit_end (record_call commit_call u)).1 (record_call-After u)
          (commit_try-After o o.commit_end (record_call commit_call u)))
      (λ h. (refl, refl, refl, refl))

flush-After : (e : FlushEnd) (u : Uow) → After u (flush e u).1
unfolding flush flush_try record_call
flush-After e u =
    ground
      (arith, created-append u.calls (flush_call ∷ []), closes-append u.calls (flush_call ∷ []))

use_once-After : (x : Use) (u : Uow) → After u (use_once x u).1
unfolding use_once
use_once-After (commit_use o) u = commit-After o u
use_once-After (rollback_use o) u = rollback-After o u
use_once-After (flush_use e) u = flush-After e u

run_rest :
    (x : Use) (xs : List Use) (body : Body) (u : Uow) (r : Result (Unit {0}) (Unit {0}))
    → After (use_once x u).1 (run_body xs body (use_once x u).1).1
    → After u
        (elim r as (λ _. Body × Uow) [
          | ok _ ↦ run_body xs body (use_once x u).1
          | raised _ ↦ (exception, (use_once x u).1)
        ]).1
run_rest x xs body u (ok t) rest =
    trans-After u (use_once x u).1 (run_body xs body (use_once x u).1).1 (use_once-After x u) rest
run_rest x xs body u (raised t) rest = use_once-After x u

pub run_body-After : (xs : List Use) (body : Body) (u : Uow) → After u (run_body xs body u).1
unfolding run_body
run_body-After [] body u = (refl, refl, refl, refl)
run_body-After (x ∷ xs) body u =
    run_rest x xs body u (use_once x u).0 (run_body-After xs body (use_once x u).1)

pub exit_try-After : (o : Outcomes) (body : Body) (u : Uow) → After u (exit_try o body u).1
unfolding exit_try
exit_try-After o success u =
    if_cases (Leads u) u.auto_commit _ _ (λ h. commit-After o u) (λ h. (refl, refl, refl, refl))
exit_try-After o exception u = (refl, refl, refl, refl)
