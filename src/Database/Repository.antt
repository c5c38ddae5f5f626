-- ===== src/Database/Repository.antt =====
-- The selects of `PgBaseRepository` in backend/core/infrastructure/database/repositories/base.py. The
-- session and the statements are SQLAlchemy's, a parameter. The decorator of the methods, which maps
-- their exceptions, is left out.
pub mod Write
pub mod Upsert
use backend_prod_ready.Prelude.{
  Bool, List, Option, Text, [], false, if◌then◌else◌, is_none, map, none, not, some, true, ◌∷◌, ◌≡◌,
  ap, refl,
}
use backend_prod_ready.Dict.{Dict}
use backend_prod_ready.Exec.{Exec, Result, ok, raised, pure, raise, ◌>>=◌, ◌>>◌, continue}

-- The attributes of an entity or the columns of a row by name; `none` is Python's None.
abbrev pub Fields : Type 0 → Type 0
Fields V = Dict (Option V)

-- What leaves a call of the session: an exception of the database, SQLAlchemy's
-- MultipleResultsFound, or its ValueError for a clause that sets nothing.
pub data SessionError : Type 0 where
  database_error multiple_results_found empty_set : SessionError

-- AsyncSession, and the statements that the repository makes. `item` and `value` are the first column
-- of a row, as an entity or as a scalar.
pub record Session : Type 1 where
  pub State : Type 0
  pub Statement : Type 0
  pub Row : Type 0
  pub Value : Type 0
  pub item : Row → Option (Fields Value)
  pub value : Row → Option Value
  pub as_dict : Row → Fields Value
  -- `Result.unique`
  pub unique : List Row → List Row
  pub execute : Statement → Exec State SessionError (List Row)
  pub add : Fields Value → State → State
  pub flush : Exec State SessionError (Unit {0})
  pub refresh : List Text → Fields Value → Exec State SessionError (Fields Value)
  pub merge : Fields Value → Exec State SessionError (Fields Value)
  pub remove : Fields Value → Exec State SessionError (Unit {0})
  -- `stmt.with_for_update(skip_locked=…, nowait=…)`
  pub with_for_update : Bool → Bool → Statement → Statement
  -- `select(model).where(model.id == …)`
  pub where_id : Option Value → Statement

pub data SelectMode : Type 0 where
  one all_items unique_entity dict unique_dict all_dict row scalar_list : SelectMode

module _ (s : Session) where
  open s use {State, Statement, Row, Value, item, value, as_dict, unique, execute, refresh}

  abbrev pub Action : Type 0 → Type 0
  Action A = Exec State SessionError A

  abbrev pub Entity : Type 0
  Entity = Fields Value

  -- What `_execute_select` returns.
  pub data Selected : Type 0 where
    entity : Option Entity → Selected
    entities : List (Option Entity) → Selected
    fields : Fields Value → Selected
    all_fields : List (Fields Value) → Selected
    rows : List Row → Selected
    scalars : List (Option Value) → Selected

  -- `result.scalar()`, of an ORM select
  unfoldable pub scalar : List Row → Option Entity
  scalar [] = none
  scalar (r ∷ rs) = item r

  -- `as_dict(result.first())`
  unfoldable pub first_dict : List Row → Fields Value
  first_dict [] = []
  first_dict (r ∷ rs) = as_dict r

  -- What a mode makes of a result.
  unfoldable pub fetch : SelectMode → List Row → Selected
  unfolding scalar first_dict
  fetch one rs = entity (scalar rs)
  fetch all_items rs = entities (map item rs)
  fetch unique_entity rs = entities (map item (unique rs))
  fetch dict rs = fields (first_dict rs)
  fetch unique_dict rs = all_fields (map as_dict (unique rs))
  fetch all_dict rs = all_fields (map as_dict rs)
  fetch row rs = rows rs
  fetch scalar_list rs = scalars (map value rs)

  -- `_execute_select`
  unfoldable pub execute_select : Statement → SelectMode → Action Selected
  unfolding fetch
  execute_select stmt mode = do rs ← execute stmt; pure (fetch mode rs)

  -- `result.scalar() is not None`
  unfoldable pub has_value : List Row → Bool
  has_value [] = false
  has_value (r ∷ rs) = not (is_none (value r))

  -- `bool_check`
  unfoldable pub bool_check : Statement → Action Bool
  unfolding has_value
  bool_check stmt = do rs ← execute stmt; pure (has_value rs)

  -- `result_list[0] if result_list else None`, or the entity itself
  unfoldable pub first_of : Selected → Option Entity
  first_of (entity e) = e
  first_of (entities (e ∷ es)) = e
  first_of _ = none

  -- `if entity and refresh_attrs: await self.session.refresh(…)`
  unfoldable pub refresh_some : Option Entity → List Text → Action (Option Entity)
  refresh_some none attrs = pure none
  refresh_some (some e) [] = pure (some e)
  refresh_some (some e) (a ∷ attrs) = do e' ← refresh (a ∷ attrs) e; pure (some e')

  -- `_select_one_orm_internal`; no attributes to refresh are the empty list
  unfoldable pub select_one_orm_internal : Statement → Bool → List Text → Action (Option Entity)
  unfolding execute_select first_of refresh_some
  select_one_orm_internal stmt uniquely attrs = do
    selected ← execute_select stmt (if uniquely then unique_entity else one)
    refresh_some (first_of selected) attrs

  abbrev items_of : Selected → List (Option Entity)
  items_of (entities es) = es
  items_of _ = []

  -- `_select_many_orm_internal`
  unfoldable pub select_many_orm_internal : Statement → Bool → Action (List (Option Entity))
  unfolding execute_select
  select_many_orm_internal stmt uniquely = do
    selected ← execute_select stmt (if uniquely then unique_entity else all_items)
    pure (items_of selected)

  -- `select_one_for_update` and `select_many_for_update`
  unfoldable pub select_one_for_update :
      Statement → Bool → Bool → Bool → List Text → Action (Option Entity)
  unfolding select_one_orm_internal
  select_one_for_update stmt skip_locked nowait uniquely attrs =
      select_one_orm_internal (s.with_for_update skip_locked nowait stmt) uniquely attrs

  unfoldable pub select_many_for_update :
      Statement → Bool → Bool → Bool → Action (List (Option Entity))
  unfolding select_many_orm_internal
  select_many_for_update stmt skip_locked nowait uniquely =
      select_many_orm_internal (s.with_for_update skip_locked nowait stmt) uniquely

  -- What `unique` keeps: it drops no first row, and makes none up.
  pub record KeepsFirst : Type 0 where
    pub first_kept : (r : Row) (rs : List Row) → (tail : List Row) × (unique (r ∷ rs) ≡ r ∷ tail)
    pub empty_kept : unique [] ≡ []

  scalar_unique : KeepsFirst → (rs : List Row) → first_of (fetch unique_entity rs) ≡ scalar rs
  unfolding fetch first_of scalar
  scalar_unique k [] = rw k.empty_kept
  scalar_unique k (r ∷ rs) = let (tail, e) = k.first_kept r rs in rw e

  select-agree :
      KeepsFirst
      → (attrs : List Text) (r : Result SessionError (List Row) × State)
      → continue
          (continue r (λ rs. pure (fetch unique_entity rs)))
          (λ selected. refresh_some (first_of selected) attrs)
        ≡ continue
            (continue r (λ rs. pure (fetch one rs)))
            (λ selected. refresh_some (first_of selected) attrs)
  unfolding fetch first_of
  select-agree k attrs (ok rs, st) =
      ap (λ (e : Option Entity). refresh_some e attrs st) (scalar_unique k rs)
  select-agree k attrs (raised e, st) = refl

  -- Selecting one entity answers the same with and without `unique`, if that keeps the first row.
  pub select_one_unique :
      KeepsFirst
      → (stmt : Statement) (attrs : List Text) (st : State)
      → select_one_orm_internal stmt true attrs st ≡ select_one_orm_internal stmt false attrs st
  unfolding select_one_orm_internal execute_select
  select_one_unique k stmt attrs st = select-agree k attrs (execute stmt st)
