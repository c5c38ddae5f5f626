-- ===== src/Database/Repository/Upsert/Conflict.antt =====
-- What an upsert does to a row that is there already.
use backend_prod_ready.Prelude.{
  Bool, List, Option, Text, [], all, arith, false, if_cases, if◌then◌else◌, is_none, none, not,
  refl, some, text_eq_iff, true, ◌&&◌, ◌∷◌, ◌≡◌,
}
use backend_prod_ready.Dict.{find, put, keys, Dict}
use backend_prod_ready.Dict.Laws.{Unique, Unique-put, find-put}
use backend_prod_ready.Exec.{raised}
use backend_prod_ready.Database.Repository.{Fields, Session, empty_set}
use backend_prod_ready.Database.Repository.Write.{contains}
use backend_prod_ready.Database.Repository.Upsert.{
  Builder, RefusesEmpty, Setting, all_but, does_nothing, excluded, literal, proposed_from,
  update_dict, upsert_one_core, upsert_statement,
}

-- The fields that an upsert may write.
abbrev pub touches : List Text → Option (List Text) → Text → Bool
touches conflict_fields none j = not (contains j conflict_fields)
touches conflict_fields (some update_fields) j = contains j update_fields

module _ {V : Type 0} where
  -- A value of the SET clause, of a row that was proposed.
  abbrev evaluate : Fields V → Setting V → Option V
  evaluate proposed (literal v) = v
  evaluate proposed (excluded field) = elim (find field proposed) [ none ↦ none | some v ↦ v ]

  -- The row after ON CONFLICT DO UPDATE.
  unfoldable pub after_conflict : Fields V → Dict (Setting V) → Fields V → Fields V
  after_conflict proposed [] old = old
  after_conflict proposed ((field, setting) ∷ set) old =
      after_conflict proposed set (put field (evaluate proposed setting) old)

  abbrev over_setting : Fields V → Option (Setting V) → Option (Option V) → Option (Option V)
  over_setting proposed none old = old
  over_setting proposed (some setting) old = some (evaluate proposed setting)

  after_conflict-find :
      (proposed : Fields V) (j : Text) (set : Dict (Setting V)) (old : Fields V)
      → Unique set
      → find j (after_conflict proposed set old) ≡ over_setting proposed (find j set) (find j old)
  unfolding after_conflict find
  after_conflict-find proposed j [] old u = refl
  after_conflict-find proposed j ((field, setting) ∷ set) old u = ground (
    arith,
    after_conflict-find proposed j set (put field (evaluate proposed setting) old),
    find-put field j (evaluate proposed setting) old,
    text_eq_iff field j,
  )

  abbrev as_literal : Option (Option V) → Option (Setting V)
  as_literal none = none
  as_literal (some v) = some (literal v)

  all_but-find :
      (conflict_fields : List Text) (j : Text) (data' : Fields V)
      → find j (all_but conflict_fields data')
        ≡ (if contains j conflict_fields then none else as_literal (find j data'))
  unfolding all_but find
  all_but-find conflict_fields j [] = ground arith
  all_but-find conflict_fields j ((k, v) ∷ data') =
      ground (arith, all_but-find conflict_fields j data', text_eq_iff k j)

  all_but-Unique :
      (conflict_fields : List Text) (data' : Fields V)
      → Unique data'
      → Unique (all_but conflict_fields data')
  unfolding all_but
  all_but-Unique conflict_fields [] u = tt
  all_but-Unique conflict_fields ((k, v) ∷ data') u =
      if_cases (λ (d : Dict (Setting V)). Unique d) (contains k conflict_fields) _ _
        (λ h. all_but-Unique conflict_fields data' u.1)
        (λ h. (
          ground (arith, all_but-find conflict_fields k data', u.0),
          all_but-Unique conflict_fields data' u.1,
        ))

  proposed_from-find :
      (update_fields : List Text) (j : Text) (data' : Fields V) (made : Dict (Setting V))
      → find j (proposed_from update_fields data' made) ≡ (
          if contains j update_fields && not (is_none (find j data'))
          then some (excluded j)
          else find j made)
  unfolding proposed_from
  proposed_from-find [] j data' made = refl
  proposed_from-find (k ∷ update_fields) j data' made = ground (
    arith,
    proposed_from-find update_fields j data'
        (if is_none (find k data') then made else put k (excluded k) made),
    find-put k j (excluded k) made,
    text_eq_iff k j,
    text_eq_iff j k,
  )

  proposed_from-Unique :
      (update_fields : List Text) (data' : Fields V) (made : Dict (Setting V))
      → Unique made
      → Unique (proposed_from update_fields data' made)
  unfolding proposed_from
  proposed_from-Unique [] data' made u = u
  proposed_from-Unique (k ∷ update_fields) data' made u =
      proposed_from-Unique update_fields data' _ (
        if_cases (λ (d : Dict (Setting V)). Unique d) (is_none (find k data')) made
          (put k (excluded k) made) (λ h. u) (λ h. Unique-put k (excluded k) made u))

  update_dict-Unique :
      (conflict_fields : List Text) (update_fields : Option (List Text)) (data' : Fields V)
      → Unique data'
      → Unique (update_dict conflict_fields update_fields data')
  unfolding update_dict
  update_dict-Unique conflict_fields none data' u = all_but-Unique conflict_fields data' u
  update_dict-Unique conflict_fields (some update_fields) data' u =
      proposed_from-Unique update_fields data' [] tt

  abbrev pub or_else : Option (Option V) → Option (Option V) → Option (Option V)
  or_else none old = old
  or_else (some v) old = some v

  -- The SET clause of an upsert, on a row that is there already: a field has the value of the data
  -- afterwards if it is in the data and is to be updated, which without `update_fields` all but the
  -- conflict fields are; any other field has the value it had.
  pub update_dict_exact :
      (conflict_fields : List Text) (update_fields : Option (List Text)) (data' old : Fields V)
      (j : Text)
      → Unique data'
      → find j (after_conflict data' (update_dict conflict_fields update_fields data') old) ≡ (
          if touches conflict_fields update_fields j
          then or_else (find j data') (find j old)
          else find j old)
  unfolding update_dict find
  update_dict_exact conflict_fields none data' old j u = ground (
    arith,
    after_conflict-find data' j (all_but conflict_fields data') old
        (all_but-Unique conflict_fields data' u),
    all_but-find conflict_fields j data',
  )
  update_dict_exact conflict_fields (some update_fields) data' old j u = ground (
    arith,
    after_conflict-find data' j (proposed_from update_fields data' []) old
        (proposed_from-Unique update_fields data' [] tt),
    proposed_from-find update_fields j data' [],
  )

  all_but-keys :
      (conflict_fields : List Text) (data' : Fields V)
      → all (λ k. contains k conflict_fields) (keys data') ≡ true
      → all_but conflict_fields data' ≡ []
  unfolding all_but keys
  all_but-keys conflict_fields [] h = refl
  all_but-keys conflict_fields ((k, v) ∷ data') h =
      ground (arith, all_but-keys conflict_fields data')

-- An upsert of data that holds conflict fields only, with no `update_fields` and without
-- `do_nothing_on_conflict`, raises the builder's ValueError, and nothing reaches the database.
pub upsert_only_keys :
    (s : Session) (b : Builder s)
    → RefusesEmpty s b
    → (data' : Fields s.Value) (conflict_fields : List Text) (return_entity : Bool) (st : s.State)
    → all (λ k. contains k conflict_fields) (keys data') ≡ true
    → upsert_one_core s b data' conflict_fields none return_entity false st ≡ (raised empty_set, st)
unfolding upsert_one_core update_dict does_nothing upsert_statement
upsert_only_keys s b r data' conflict_fields return_entity st h =
    rw (
      all_but-keys conflict_fields data' h,
      r.empty_refused conflict_fields (b.insert_values data'),
    )
