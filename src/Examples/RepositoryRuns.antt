-- ===== src/Examples/RepositoryRuns.antt =====
-- The theorems on the repository at concrete inputs.
use backend_prod_ready.Prelude.{
  ℕ, List, Text, [], codes, if◌then◌else◌, none, not, refl, some, text_eq, true, ◌&&◌, ◌+◌, ◌∷◌,
  ◌≡◌,
}
use backend_prod_ready.Dict.{find}
use backend_prod_ready.Exec.{ok, pure}
use backend_prod_ready.Database.Repository.{Fields, Session}
use backend_prod_ready.Database.Repository.Write.{contains, is_kept, update_from_domain}
use backend_prod_ready.Database.Repository.Write.Updated.{over, update_from_domain_exact}
use backend_prod_ready.Database.Repository.Upsert.{update_dict}
use backend_prod_ready.Database.Repository.Upsert.Conflict.{
  after_conflict, or_else, touches, update_dict_exact,
}

abbrev stored : Fields ℕ
stored =
    (codes "id", some 1)
    ∷ (codes "created_at", some 10)
    ∷ (codes "name", some 20)
    ∷ (codes "note", some 30)
    ∷ []

-- A session over one row, which counts the calls that write.
abbrev one_row : Session
one_row = record {
  State = ℕ;
  Statement = ℕ;
  Row = Fields ℕ;
  Value = ℕ;
  item = λ r. some r;
  value = λ r. none;
  as_dict = λ r. r;
  unique = λ rs. rs;
  execute = λ stmt. pure (stored ∷ []);
  add = λ e n. n + 1;
  flush = λ n. (ok tt, n + 1);
  refresh = λ attrs e. pure e;
  merge = λ e. pure e;
  remove = λ e. pure tt;
  with_for_update = λ skip_locked nowait stmt. stmt + 1;
  where_id = λ id. 0;
}

abbrev columns : List Text
columns = codes "id" ∷ codes "created_at" ∷ codes "name" ∷ codes "note" ∷ []

-- A new name, and a note that is to be cleared.
abbrev changed : Fields ℕ
changed =
    (codes "id", some 1)
    ∷ (codes "created_at", some 11)
    ∷ (codes "name", some 21)
    ∷ (codes "note", none)
    ∷ []

update_from_domain_exact_example :
    (e' : Fields ℕ) × (update_from_domain one_row columns (some 1) changed true [] 0
      ≡ (ok (some e'), 2))
    × ((j : Text)
        → find j e' ≡ (
            if contains j columns && not (is_kept one_row j)
            then over (find j changed) (find j stored)
            else find j stored))
update_from_domain_exact_example =
    update_from_domain_exact one_row columns (some 1) changed true 0 0 stored stored [] refl refl
      (λ t. refl)

update_dict_exact_example :
    find (codes "name") (after_conflict changed (update_dict (codes "id" ∷ []) none changed) stored)
    ≡ (if touches (codes "id" ∷ []) none (codes "name")
        then or_else (find (codes "name") changed) (find (codes "name") stored)
        else find (codes "name") stored)
unfolding find text_eq
update_dict_exact_example =
    update_dict_exact (codes "id" ∷ []) none changed stored (codes "name")
      (refl, (refl, (refl, (refl, tt))))
