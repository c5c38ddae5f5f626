-- ===== src/Database/Repository/Write.antt =====
-- The inserts, updates and deletes of `PgBaseRepository` in
-- backend/core/infrastructure/database/repositories/base.py.
pub mod Updated
use backend_prod_ready.Prelude.{
  Bool, List, Option, Text, [], codes, false, if◌then◌else◌, is_none, none, some, text_eq, true,
  ◌||◌, ◌∷◌,
}
use backend_prod_ready.Dict.{find, put}
use backend_prod_ready.Exec.{Result, ok, raised, pure, raise, ◌>>=◌, ◌>>◌}
use backend_prod_ready.Database.Repository.{
  Action, Entity, Fields, Session, select_one_orm_internal,
}

-- `field in names`
abbrev pub contains : Text → List Text → Bool
contains field [] = false
contains field (name ∷ names) = if text_eq field name then true else contains field names

module _ (s : Session) where
  open s use {State, Statement, Row, Value, add, flush, refresh, merge, remove}

  -- `if flush: await self.session.flush()`
  unfoldable pub flush_if : Bool → Action s (Unit {0})
  flush_if true = flush
  flush_if false = pure tt

  -- `if refresh_attrs: await self.session.refresh(entity, refresh_attrs)`
  unfoldable pub refresh_if : List Text → Entity s → Action s (Entity s)
  refresh_if [] e = pure e
  refresh_if (a ∷ attrs) e = refresh (a ∷ attrs) e

  -- the flush, and the refresh that only follows a flush
  unfoldable pub flush_then_refresh : Bool → List Text → Entity s → Action s (Entity s)
  unfolding refresh_if
  flush_then_refresh false attrs e = pure e
  flush_then_refresh true attrs e = do flush; refresh_if attrs e

  add_one : Entity s → Action s (Unit {0})
  add_one e st = (ok tt, add e st)

  -- `insert_one_orm`
  unfoldable pub insert_one_orm : Entity s → Bool → List Text → Action s (Entity s)
  unfolding flush_then_refresh add_one
  insert_one_orm instance flushing attrs = do
    add_one instance
    flush_then_refresh flushing attrs instance

  -- `upsert_one_orm`
  unfoldable pub upsert_one_orm : Entity s → Bool → List Text → Action s (Entity s)
  unfolding flush_then_refresh
  upsert_one_orm instance flushing attrs = do
    merged ← merge instance
    flush_then_refresh flushing attrs merged

  -- `session.add_all`
  unfoldable pub add_all : List (Entity s) → State → State
  add_all [] st = st
  add_all (e ∷ es) st = add_all es (add e st)

  -- `insert_many_orm`
  unfoldable pub insert_many_orm : List (Entity s) → Bool → Action s (List (Entity s))
  unfolding flush_if add_all
  insert_many_orm instances flushing = do
    (λ st. (ok tt, add_all instances st))
    flush_if flushing
    pure instances

  -- One round of the loop of `_update_one_orm_internal`.
  unfoldable pub set_column : List Text → Text → Option Value → Entity s → Entity s
  set_column columns field none e = e
  set_column columns field (some v) e = if contains field columns then put field (some v) e else e

  unfoldable pub set_columns : List Text → Fields Value → Entity s → Entity s
  unfolding set_column
  set_columns columns [] e = e
  set_columns columns ((field, value) ∷ data') e =
      set_columns columns data' (set_column columns field value e)

  -- `_update_one_orm_internal`; `columns` are the keys of the mapper's columns
  unfoldable pub update_one_orm :
      List Text → Fields Value → Bool → List Text → Entity s → Action s (Entity s)
  unfolding set_columns flush_then_refresh add_one
  update_one_orm columns update_data flushing attrs e = do
    add_one (set_columns columns update_data e)
    flush_then_refresh flushing attrs (set_columns columns update_data e)

  -- `hasattr` and `setattr` over a payload: None is written here
  unfoldable pub set_payload : Fields Value → Entity s → Entity s
  set_payload [] e = e
  set_payload ((field, value) ∷ payload) e =
      set_payload payload (if is_none (find field e) then e else put field value e)

  unfoldable pub update_all : Fields Value → List (Entity s) → State → List (Entity s) × State
  unfolding set_payload
  update_all payload [] st = ([], st)
  update_all payload (e ∷ es) st =
      let e' = set_payload payload e in
      let (es', st') = update_all payload es (add e' st) in (e' ∷ es', st')

  -- `update_many_orm`, with the entities that it changed
  unfoldable pub update_many_orm :
      Fields Value → Bool → List (Entity s) → Action s (List (Entity s))
  unfolding update_all flush_if
  update_many_orm payload flushing es = do
    changed ← (λ st. (let (es', st') = update_all payload es st in (ok es', st')))
    flush_if flushing
    pure changed

  -- `delete_one_orm`
  unfoldable pub delete_one_orm : Entity s → Bool → Action s (Unit {0})
  unfolding flush_if
  delete_one_orm e flushing = do remove e; flush_if flushing

  -- The columns that `update_from_domain` leaves out.
  abbrev pub is_kept : Text → Bool
  is_kept field = text_eq field (codes "id") || text_eq field (codes "created_at")

  -- One round of the loop that collects `_update_data`.
  unfoldable pub collect_one : Text → Option (Option Value) → Fields Value → Fields Value
  collect_one field (some (some v)) collected =
      if is_kept field then collected else put field (some v) collected
  collect_one field (some none) collected = collected
  collect_one field none collected = collected

  unfoldable pub collect : List Text → Fields Value → Fields Value → Fields Value
  unfolding collect_one
  collect [] values collected = collected
  collect (field ∷ columns) values collected =
      collect columns values (collect_one field (find field values) collected)

  unfoldable pub update_existing :
      List Text → Fields Value → Bool → List Text → Option (Entity s) → Action s (Option (Entity s))
  unfolding update_one_orm collect
  update_existing columns values flushing attrs none = pure none
  update_existing columns values flushing attrs (some e) = do
    e' ← update_one_orm columns (collect columns values []) flushing attrs e
    pure (some e')

  -- `update_from_domain`; `values` are the attributes of `from_domain(domain)`, which a subclass makes
  unfoldable pub update_from_domain :
      List Text → Option Value → Fields Value → Bool → List Text → Action s (Option (Entity s))
  unfolding update_existing select_one_orm_internal
  update_from_domain columns id values flushing attrs = do
    existing ← select_one_orm_internal s (s.with_for_update false false (s.where_id id)) false []
    update_existing columns values flushing attrs existing
