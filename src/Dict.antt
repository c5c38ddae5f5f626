-- ===== src/Dict.antt =====
-- Python's `dict` with text keys, in insertion order: `d[k] = v` replaces an entry in its place and
-- appends a new one. The keys of a dict are distinct, which `Unique` states of the list.
pub mod Laws
use backend_prod_ready.Prelude.{Text, Option, none, some, List, [], ◌∷◌, text_eq, if◌then◌else◌}

abbrev pub Dict {ℓ} : Type ℓ → Type ℓ
Dict V = List (Text × V)

module _ {ℓ} {V : Type ℓ} where
  -- `d.get(k)`
  unfoldable pub find : Text → Dict V → Option V
  find k [] = none
  find k ((j, v) ∷ d) = if text_eq j k then some v else find k d

  -- `d[k] = v`
  unfoldable pub put : Text → V → Dict V → Dict V
  put k v [] = (k, v) ∷ []
  put k v ((j, w) ∷ d) = let rest = put k v d in if text_eq j k then (j, v) ∷ d else (j, w) ∷ rest

  -- `d.pop(k, None)`, and `del d[k]` of a key that is there
  unfoldable pub pop : Text → Dict V → Dict V
  pop k [] = []
  pop k ((j, v) ∷ d) = let rest = pop k d in if text_eq j k then d else (j, v) ∷ rest

  -- `list(d.keys())`
  unfoldable pub keys : Dict V → List Text
  keys [] = []
  keys ((k, v) ∷ d) = k ∷ keys d

  -- `for k in ks: del d[k]`
  unfoldable pub pop_all : List Text → Dict V → Dict V
  pop_all [] d = d
  pop_all (k ∷ ks) d = pop_all ks (pop k d)
