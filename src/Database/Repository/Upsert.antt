-- ===== src/Database/Repository/Upsert.antt =====
-- `upsert_one_core` of `PgBaseRepository` in
-- backend/core/infrastructure/database/repositories/base.py. The builder of INSERT … ON CONFLICT is
-- SQLAlchemy's, a parameter.
pub mod Conflict
use backend_prod_ready.Prelude.{
  Bool, List, Option, Text, [], false, if◌then◌else◌, is_none, none, some, true, ◌∷◌, ◌≡◌,
}
use backend_prod_ready.Dict.{find, put, Dict}
use backend_prod_ready.Exec.{Result, ok, raised, pure, ◌>>=◌, ◌>>◌}
use backend_prod_ready.Database.Repository.{
  Action, Entity, Fields, Session, SessionError, empty_set, multiple_results_found,
}
use backend_prod_ready.Database.Repository.Write.{contains}

-- A value of the SET clause: a parameter, or `stmt.excluded[field]`.
pub data Setting (V : Type 0) : Type 0 where
  literal : Option V → Setting V
  excluded : Text → Setting V

-- The statements that `insert` of the dialect starts.
pub record Builder (s : Session) : Type 0 where
  pub insert_values : Fields s.Value → s.Statement
  pub on_conflict_do_nothing : List Text → s.Statement → s.Statement
  pub on_conflict_do_update :
      List Text → Dict (Setting s.Value) → s.Statement → Result SessionError s.Statement
  pub returning : s.Statement → s.Statement

-- It raises ValueError for a SET clause with nothing to set.
pub record RefusesEmpty (s : Session) (b : Builder s) : Type 0 where
  pub empty_refused :
      (conflict_fields : List Text) (stmt : s.Statement)
      → b.on_conflict_do_update conflict_fields [] stmt ≡ raised empty_set

-- `do_nothing_on_conflict or (update_fields is not None and len(update_fields) == 0)`
unfoldable pub does_nothing : Bool → Option (List Text) → Bool
does_nothing true update_fields = true
does_nothing false (some []) = true
does_nothing false _ = false

module _ {V : Type 0} where
  -- `{k: v for k, v in data.items() if k not in conflict_fields}`
  unfoldable pub all_but : List Text → Fields V → Dict (Setting V)
  all_but conflict_fields [] = []
  all_but conflict_fields ((k, v) ∷ data') =
      let rest = all_but conflict_fields data' in
      if contains k conflict_fields then rest else (k, literal v) ∷ rest

  -- `{k: stmt.excluded[k] for k in update_fields if k in data}`
  unfoldable pub proposed_from : List Text → Fields V → Dict (Setting V) → Dict (Setting V)
  proposed_from [] data' made = made
  proposed_from (k ∷ update_fields) data' made =
      proposed_from update_fields data'
        (if is_none (find k data') then made else put k (excluded k) made)

  -- `update_dict`; `none` for no `update_fields`
  unfoldable pub update_dict : List Text → Option (List Text) → Fields V → Dict (Setting V)
  unfolding all_but proposed_from
  update_dict conflict_fields none data' = all_but conflict_fields data'
  update_dict conflict_fields (some update_fields) data' = proposed_from update_fields data' []

module _ (s : Session) (b : Builder s) where
  open s use {State, Statement, Row, Value, item, execute}
  open b use {insert_values, on_conflict_do_nothing, on_conflict_do_update, returning}

  -- `result.scalar_one_or_none()`
  unfoldable pub scalar_one_or_none : List Row → Result SessionError (Option (Entity s))
  scalar_one_or_none [] = ok none
  scalar_one_or_none (r ∷ []) = ok (item r)
  scalar_one_or_none (r ∷ r' ∷ rs) = raised multiple_results_found

  -- The statement.
  unfoldable pub upsert_statement :
      Fields Value → List Text → Option (List Text) → Bool → Result SessionError Statement
  unfolding update_dict does_nothing
  upsert_statement data' conflict_fields update_fields do_nothing =
      if does_nothing do_nothing update_fields
      then ok (on_conflict_do_nothing conflict_fields (insert_values data'))
      else on_conflict_do_update conflict_fields (update_dict conflict_fields update_fields data')
          (insert_values data')

  -- Its execution.
  unfoldable pub run_upsert : Bool → Statement → Action s (Option (Entity s))
  unfolding scalar_one_or_none
  run_upsert true stmt = do rs ← execute (returning stmt); (λ st. (scalar_one_or_none rs, st))
  run_upsert false stmt = do execute stmt; pure none

  -- `upsert_one_core`
  unfoldable pub upsert_one_core :
      Fields Value → List Text → Option (List Text) → Bool → Bool → Action s (Option (Entity s))
  unfolding upsert_statement run_upsert
  upsert_one_core data' conflict_fields update_fields return_entity do_nothing st =
      elim (upsert_statement data' conflict_fields update_fields do_nothing) [
        | raised e ↦ (raised e, st)
        | ok stmt ↦ run_upsert return_entity stmt st
      ]
