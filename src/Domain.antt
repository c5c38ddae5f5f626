-- ===== src/Domain.antt =====
-- `BaseDomain` of backend/core/domain/base_domain.py: its dict for the cache and its errors.
-- `asdict` is that of Python's dataclasses.
pub mod Serialized
use backend_prod_ready.Prelude.{
  Text, ℕ, Bool, List, Option, [], codes, if◌then◌else◌, none, some, starts_with, ◌++◌, ◌==◌, ◌∷◌,
}

mutual
  -- A value of a field: a scalar, a member of an enumeration with its value, a list, a dict, or a
  -- domain object with its fields.
  pub data Value : Type 0 where
    scalar : ℕ → Value
    enum : ℕ → Value
    items : Values → Value
    mapping : Fields → Value
    domain : Fields → Value

  pub data Values : Type 0 where
    no_values : Values
    value : Value → Values → Values

  pub data Fields : Type 0 where
    no_fields : Fields
    field : Text → Value → Fields → Fields

-- `asdict`: domain objects become dicts all the way down, with every field; other values are copied.
unfoldable mutual
  pub as_plain : Value → Value
  as_plain (scalar n) = scalar n
  as_plain (enum n) = enum n
  as_plain (items vs) = items (all_plain vs)
  as_plain (mapping fs) = mapping (asdict fs)
  as_plain (domain fs) = mapping (asdict fs)

  pub all_plain : Values → Values
  all_plain no_values = no_values
  all_plain (value v vs) = value (as_plain v) (all_plain vs)

  pub asdict : Fields → Fields
  asdict no_fields = no_fields
  asdict (field k v fs) = field k (as_plain v) (asdict fs)

-- `k.startswith("_")`
abbrev pub is_private : Text → Bool
is_private k = starts_with (codes "_") k

module _ (again : Fields → Fields) where
  -- `_convert_value`; `again` is the call of `to_dict` on a domain object inside.
  unfoldable mutual
    pub convert_value : Value → Value
    convert_value (scalar n) = scalar n
    convert_value (enum n) = scalar n
    convert_value (items vs) = items (convert_values vs)
    convert_value (mapping fs) = mapping fs
    convert_value (domain fs) = mapping (again fs)

    pub convert_values : Values → Values
    convert_values no_values = no_values
    convert_values (value v vs) = value (convert_value v) (convert_values vs)

  -- `{k: _convert_value(v) for k, v in data.items() if not k.startswith("_")}`
  unfoldable pub converted : Fields → Fields
  unfolding convert_value
  converted no_fields = no_fields
  converted (field k v fs) =
      let rest = converted fs in if is_private k then rest else field k (convert_value v) rest

  -- `to_dict`
  unfoldable pub to_dict : Fields → Fields
  unfolding converted asdict
  to_dict fs = converted (asdict fs)

-- `add_validation_error`
unfoldable pub add_validation_error : Text → List Text → List Text
add_validation_error error errors = errors ++ (error ∷ [])

-- `"; ".join(…)`
unfoldable pub join_errors : List Text → Text
join_errors [] = []
join_errors (e ∷ []) = e
join_errors (e ∷ e' ∷ es) = e ++ (codes "; " ++ join_errors (e' ∷ es))

-- `raise_if_invalid`: the message of the DomainValidationError, if there is one
unfoldable pub raise_if_invalid : List Text → Option Text
unfolding join_errors
raise_if_invalid [] = none
raise_if_invalid (e ∷ es) = some (join_errors (e ∷ es))
