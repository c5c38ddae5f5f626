-- ===== src/Examples/DomainRuns.antt =====
-- The theorem on domain objects at a concrete input.
use backend_prod_ready.Prelude.{
  starts_with, text_eq, codes, if◌then◌else◌, none, refl, some, text_eq, ◌≡◌,
}
use backend_prod_ready.Domain.{
  Fields, asdict, domain, enum, field, is_private, items, mapping, no_fields, no_values, scalar,
  to_dict,
}
use backend_prod_ready.Domain.Serialized.{find_field, shown_if_there, to_dict_exact}

-- An order with a customer inside, whose errors are a private field.
abbrev customer : Fields
customer =
    field (codes "id") (scalar 7) (field (codes "_validation_errors") (items no_values) no_fields)

abbrev order : Fields
order =
    field (codes "id") (scalar 1)
      (field (codes "status") (enum 3) (field (codes "customer") (domain customer) no_fields))

to_dict_exact_example : find_field (codes "customer") (to_dict (λ fs. fs) order) ≡ (
    if is_private (codes "customer")
    then none
    else shown_if_there (find_field (codes "customer") order))
to_dict_exact_example = to_dict_exact (λ fs. fs) (codes "customer") order

customer_test : find_field (codes "customer") (to_dict (λ fs. fs) order) ≡ some (mapping customer)
unfolding find_field to_dict asdict text_eq starts_with
customer_test = refl
