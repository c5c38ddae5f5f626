-- ===== src/Domain/Serialized.antt =====
-- What the cache gets of a domain object.
use backend_prod_ready.Prelude.{
  Option, Text, ap, arith, if◌then◌else◌, none, refl, some, text_eq, text_eq_iff, ◌≡◌,
}
use backend_prod_ready.Domain.{
  Fields, Value, Values, all_plain, as_plain, asdict, convert_value, convert_values, domain, enum,
  field, is_private, items, mapping, no_fields, no_values, scalar, to_dict, value,
}

-- The value under a name.
unfoldable pub find_field : Text → Fields → Option Value
find_field k no_fields = none
find_field k (field j v fs) = if text_eq j k then some v else find_field k fs

-- What a value becomes: an enumeration its value, in lists too, and a domain object a dict of all
-- its fields, those that are private included, where enumerations stay.
unfoldable mutual
  pub shown : Value → Value
  shown (scalar n) = scalar n
  shown (enum n) = scalar n
  shown (items vs) = items (all_shown vs)
  shown (mapping fs) = mapping (asdict fs)
  shown (domain fs) = mapping (asdict fs)

  pub all_shown : Values → Values
  all_shown no_values = no_values
  all_shown (value v vs) = value (shown v) (all_shown vs)

abbrev pub shown_if_there : Option Value → Option Value
shown_if_there none = none
shown_if_there (some v) = some (shown v)

module _ (again : Fields → Fields) where
  mutual
    unfolding convert_value shown as_plain

    convert_value-as_plain : (v : Value) → convert_value again (as_plain v) ≡ shown v
    convert_value-as_plain (scalar n) = refl
    convert_value-as_plain (enum n) = refl
    convert_value-as_plain (items vs) = ap items (convert_values-all_plain vs)
    convert_value-as_plain (mapping fs) = refl
    convert_value-as_plain (domain fs) = refl

    convert_values-all_plain : (vs : Values) → convert_values again (all_plain vs) ≡ all_shown vs
    convert_values-all_plain no_values = refl
    convert_values-all_plain (value v vs) =
        cc (convert_value-as_plain v, convert_values-all_plain vs)

  -- The dict of a domain object, whatever a call of `to_dict` on an object inside would give: no name
  -- that starts with an underscore is in it, and under any other is what the value becomes.
  pub to_dict_exact :
      (k : Text) (fs : Fields)
      → find_field k (to_dict again fs)
        ≡ (if is_private k then none else shown_if_there (find_field k fs))
  unfolding find_field to_dict asdict
  to_dict_exact k no_fields = ground arith
  to_dict_exact k (field j v fs) =
      ground (arith, to_dict_exact k fs, convert_value-as_plain v, text_eq_iff j k)
