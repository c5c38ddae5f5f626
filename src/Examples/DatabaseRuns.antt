-- ===== src/Examples/DatabaseRuns.antt =====
-- The theorems on the database layer at concrete inputs.
use backend_prod_ready.Prelude.{
  [], false, refl, true, ◌∷◌, ◌≡◌, Text, all, codes, inl, inr, lower, starts_with, some, ◌+◌,
}
use backend_prod_ready.Database.Errors.{Exception, dbapi_error, handle_exception, operational_error}
use backend_prod_ready.Database.Errors.Redaction.{
  Params, contains, named, sanitize_params, sanitize_params_hides,
}
use backend_prod_ready.Settings.{is_lower}
use backend_prod_ready.Database.Errors.Mapping.{HasHierarchy, handled_status, status_of}
use backend_prod_ready.Database.UnitOfWork.{
  Outcomes, RollbackEnd, Uow, closed, failed, slept, success,
}
use backend_prod_ready.Database.UnitOfWork.Block.{EnterEnds, block, commit_use, flush_use, flushed}
use backend_prod_ready.Database.UnitOfWork.Block.Kept.{closes, created}
use backend_prod_ready.Database.UnitOfWork.Block.Sessions.{block_balanced}

abbrev failing : Outcomes
failing = record {
  commit_end = failed;
  rollback_end = RollbackEnd.timed_out;
  delay_end = slept;
  close_end = closed;
}

abbrev open_unit : Uow
open_unit = record {
  session = true;
  owns_session = true;
  auto_commit = true;
  timeout_occurred = false;
  repositories = 2;
  calls = [];
}

abbrev closed_unit : Uow
closed_unit = record open_unit { session = false }

-- Two repositories register.
abbrev entered : EnterEnds
entered = record { has_factory = true; creates = true; registers = some 2; close_cut_off = false }

-- The body flushes and its commit fails.
block_balanced_example :
    let uses = flush_use flushed ∷ commit_use failing ∷ [] in
    let after = block entered uses success failing closed_unit in
    created after.calls + closes [] ≡ closes after.calls + created []
block_balanced_example =
    block_balanced entered (flush_use flushed ∷ commit_use failing ∷ []) success failing closed_unit
      refl refl refl

-- An OperationalError of SQLAlchemy.
abbrev operational_failure : Exception
operational_failure operational_error = true
operational_failure dbapi_error = true
operational_failure _ = false

operational_failure-HasHierarchy : HasHierarchy operational_failure
operational_failure-HasHierarchy = record {
  timeout_http = λ e. e;
  operational_dbapi = λ e. e;
  interface_dbapi = λ e. refl;
}

handled_status_example : status_of (handle_exception operational_failure) ≡ 500
handled_status_example = handled_status operational_failure operational_failure-HasHierarchy refl

abbrev login_with : Text → Params Text
login_with password = named ((codes "user", codes "ann") ∷ (codes "PassWord", password) ∷ [])

sanitize_params_hides_example :
    sanitize_params lower (λ t. t) (all is_lower) (codes "[REDACTED]") (login_with (codes "one"))
    ≡ sanitize_params lower (λ t. t) (all is_lower) (codes "[REDACTED]") (login_with (codes "two"))
unfolding contains starts_with
sanitize_params_hides_example =
    sanitize_params_hides lower (λ t. t) (all is_lower) (codes "[REDACTED]")
      (login_with (codes "one")) (login_with (codes "two")) (refl, inr refl, (refl, inl refl, tt))
