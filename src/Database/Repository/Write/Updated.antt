-- ===== src/Database/Repository/Write/Updated.antt =====
-- What `update_from_domain` writes into an entity.
use backend_prod_ready.Prelude.{
  List, Option, Text, [], arith, if◌then◌else◌, none, not, refl, some, text_eq, text_eq_iff, ◌&&◌,
  ◌∷◌, ◌≡◌, Bool, false, if_cases, true, ap,
}
use backend_prod_ready.Dict.{find}
use backend_prod_ready.Dict.Laws.{Unique, find-put, Unique-put}
use backend_prod_ready.Exec.{Exec, raised, Result, continue, ok, pure}
use backend_prod_ready.Database.Repository.{
  Entity, Fields, Session, SessionError, fetch, first_of, one, refresh_some, scalar,
}
use backend_prod_ready.Database.Repository.Write.{
  collect, collect_one, contains, is_kept, set_column, set_columns, update_existing,
  update_from_domain, flush_then_refresh, refresh_if,
}

-- An attribute after a value was written over it: None, and no value, leave it.
abbrev pub over {ℓ} : {V : Type ℓ} → Option (Option V) → Option (Option V) → Option (Option V)
over (some (some v)) old = some (some v)
over (some none) old = old
over none old = old

module _ (s : Session) where
  open s use {State, Statement, Row, Value, item, execute, add, flush}

  set_column-find :
      (columns : List Text) (j field : Text) (value : Option Value) (e : Entity s)
      → find j (set_column s columns field value e)
        ≡ (if text_eq field j && contains j columns then over (some value) (find j e) else find j e)
  unfolding set_column
  set_column-find columns j field none e = ground arith
  set_column-find columns j field (some v) e =
      ground (arith, find-put field j (some v) e, text_eq_iff field j)

  set_columns-find :
      (columns : List Text) (j : Text) (data' : Fields Value) (e : Entity s)
      → Unique data'
      → find j (set_columns s columns data' e)
        ≡ (if contains j columns then over (find j data') (find j e) else find j e)
  unfolding set_columns find
  set_columns-find columns j [] e u = ground arith
  set_columns-find columns j ((field, value) ∷ data') e u = ground (
    arith,
    set_columns-find columns j data' (set_column s columns field value e),
    set_column-find columns j field value e,
    text_eq_iff field j,
  )

  collect_one-find :
      (j field : Text) (value : Option (Option Value)) (collected : Fields Value)
      → find j (collect_one s field value collected) ≡ (
          if text_eq field j && not (is_kept s j)
          then over value (find j collected)
          else find j collected)
  unfolding collect_one
  collect_one-find j field none collected = ground arith
  collect_one-find j field (some none) collected = ground arith
  collect_one-find j field (some (some v)) collected =
      ground (arith, find-put field j (some v) collected, text_eq_iff field j)

  collect-find :
      (columns : List Text) (j : Text) (values collected : Fields Value)
      → find j (collect s columns values collected) ≡ (
          if contains j columns && not (is_kept s j)
          then over (find j values) (find j collected)
          else find j collected)
  unfolding collect
  collect-find [] j values collected = refl
  collect-find (field ∷ columns) j values collected = ground (
    arith,
    collect-find columns j values (collect_one s field (find field values) collected),
    collect_one-find j field (find field values) collected,
    text_eq_iff field j,
    text_eq_iff j field,
  )

  collect_one-Unique :
      (field : Text) (value : Option (Option Value)) (collected : Fields Value)
      → Unique collected
      → Unique (collect_one s field value collected)
  unfolding collect_one
  collect_one-Unique field none collected u = u
  collect_one-Unique field (some none) collected u = u
  collect_one-Unique field (some (some v)) collected u =
      if_cases (λ (d : Fields Value). Unique d) (is_kept s field) _ _ (λ h. u)
        (λ h. Unique-put field (some v) collected u)

  collect-Unique :
      (columns : List Text) (values collected : Fields Value)
      → Unique collected
      → Unique (collect s columns values collected)
  unfolding collect
  collect-Unique [] values collected u = u
  collect-Unique (field ∷ columns) values collected u =
      collect-Unique columns values (collect_one s field (find field values) collected)
        (collect_one-Unique field (find field values) collected u)

  updated-find :
      (columns : List Text) (j : Text) (values : Fields Value) (e : Entity s)
      → find j (set_columns s columns (collect s columns values []) e) ≡ (
          if contains j columns && not (is_kept s j)
          then over (find j values) (find j e)
          else find j e)
  unfolding find
  updated-find columns j values e = ground (
    arith,
    set_columns-find columns j (collect s columns values []) e
        (collect-Unique columns values [] tt),
    collect-find columns j values [],
  )

  continue-ok :
      {A B : Type 0} (f : A → Exec State SessionError B) (a : A) (r : Result SessionError A × State)
      → r.0 ≡ ok a
      → continue r f ≡ f a r.1
  continue-ok f a (ok b, st) h = ground (arith, h)
  continue-ok f a (raised e, st) h = absurd (cc h)

  flushed :
      (e : Entity s) (t : State)
      → (flush t).0 ≡ ok tt
      → flush_then_refresh s true [] e t ≡ (ok e, (flush t).1)
  unfolding flush_then_refresh refresh_if
  flushed e t h = continue-ok (λ (_ : Unit {0}). pure e) tt (flush t) h

  written :
      (columns : List Text) (values : Fields Value) (flushing : Bool) (e : Entity s)
      (r : Result SessionError (List Row) × State) (st' : State) (found_row : Row) (rs : List Row)
      → r ≡ (ok (found_row ∷ rs), st')
      → item found_row ≡ some e
      → ((t : State) → (flush t).0 ≡ ok tt)
      → let e' = set_columns s columns (collect s columns values []) e in
        (continue
          (continue
            (continue r (λ rs. pure (fetch s one rs)))
            (λ selected. refresh_some s (first_of s selected) []))
          (update_existing s columns values flushing []))
        ≡ (ok (some e'), (if flushing then (flush (add e' st')).1 else add e' st'))
  unfolding flush_then_refresh fetch scalar first_of refresh_some update_existing
  written columns values false e r st' found_row rs h found flushes = rw (h, found)
  written columns values true e r st' found_row rs h found flushes =
      let e' = set_columns s columns (collect s columns values []) e in
      rw (h, found)
        (ap
          (λ (r : Result SessionError (Entity s) × State).
            continue r (λ (e' : Entity s). pure (some e')))
          (flushed e' (add e' st') (flushes (add e' st'))))

  -- `update_from_domain` on an entity that its locking select finds, with no attributes to refresh and
  -- flushes that succeed: the entity is returned, and added to the session and flushed if it is to
  -- be, in the form in which a column other than id and created_at has the value of the domain object
  -- unless that is None, and every other attribute the value it had.
  pub update_from_domain_exact :
      (columns : List Text) (id : Option Value) (values : Fields Value) (flushing : Bool)
      (st st' : State) (e : Entity s) (found_row : Row) (rs : List Row)
      → execute (s.with_for_update false false (s.where_id id)) st ≡ (ok (found_row ∷ rs), st')
      → item found_row ≡ some e
      → ((t : State) → (flush t).0 ≡ ok tt)
      → (e' : Entity s) × (update_from_domain s columns id values flushing [] st
          ≡ (ok (some e'), (if flushing then (flush (add e' st')).1 else add e' st')))
        × ((j : Text)
            → find j e' ≡ (
                if contains j columns && not (is_kept s j)
                then over (find j values) (find j e)
                else find j e))
  unfolding update_from_domain
  update_from_domain_exact columns id values flushing st st' e found_row rs h found flushes = (
    set_columns s columns (collect s columns values []) e,
    written columns values flushing e _ st' found_row rs h found flushes,
    λ j. updated-find columns j values e,
  )
