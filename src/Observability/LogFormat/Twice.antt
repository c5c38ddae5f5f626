-- ===== src/Observability/LogFormat/Twice.antt =====
-- The choice of the handlers for the JSON format, made again.
use backend_prod_ready.Prelude.{
  Bool, List, Option, Text, [], all, arith, false, if_cases, is_none, none, refl, some, text_eq,
  true, ◌∷◌, ◌≡◌,
}
use backend_prod_ready.Dict.{Dict, find}
use backend_prod_ready.Observability.LogFormat.{
  contains, handler_mapping, mapped, structured_handler_mapping, structured_or, update_handler,
  value_or,
}

-- Neither mapping of the JSON format has this handler as a key.
abbrev Settled : Text → Type 0
Settled h = (find h handler_mapping ≡ none) × (find h structured_handler_mapping ≡ none)

same_keys : (h : Text) → find h handler_mapping ≡ none → find h structured_handler_mapping ≡ none
unfolding find
same_keys h e = ground (arith, e)

found :
    (p : Text → Bool) (mapping : Dict Text) (h v : Text)
    → all (λ (e : Text × Text). p e.1) mapping ≡ true
    → find h mapping ≡ some v
    → p v ≡ true
unfolding find
found p [] h v a e = absurd (cc e)
found p ((j, w) ∷ mapping) h v a e = ground (arith, found p mapping h v, a, e)

none_of : (o : Option Text) → is_none o ≡ true → o ≡ none
none_of none e = refl
none_of (some v) e = absurd (cc e)

abbrev is_settled : Text → Bool
is_settled h = is_none (find h handler_mapping)

mapped-Settled : (h : Text) → Settled (mapped handler_mapping h)
unfolding mapped find text_eq
mapped-Settled h = after (find h handler_mapping) refl
  where
    after : (o : Option Text) → find h handler_mapping ≡ o → Settled (value_or h o)
    after none e = (e, same_keys h e)
    after (some v) e =
        let settled : is_settled v ≡ true = found is_settled handler_mapping h v refl e in
        let free : find v handler_mapping ≡ none = none_of (find v handler_mapping) settled in
        (free, same_keys v free)

structured_or-Settled :
    (configured : List Text) (h : Text)
    → Settled (structured_or configured h (find h structured_handler_mapping))
unfolding structured_or find text_eq
structured_or-Settled configured h = after (find h structured_handler_mapping) refl
  where
    after :
        (o : Option Text)
        → find h structured_handler_mapping ≡ o
        → Settled (structured_or configured h o)
    after none e = mapped-Settled h
    after (some v) e =
        let settled : is_settled v ≡ true =
          found is_settled structured_handler_mapping h v refl e in
        let free : find v handler_mapping ≡ none = none_of (find v handler_mapping) settled in
        if_cases Settled (contains v configured) _ _ (λ there. (free, same_keys v free))
          (λ gone. mapped-Settled h)

settled_lem :
    (configured : List Text) (is_structlog : Bool) (h : Text)
    → Settled h
    → update_handler configured true is_structlog h ≡ h
unfolding update_handler structured_or mapped
settled_lem configured true h (e, e') = rw e refl
settled_lem configured false h (e, e') = rw (e', e) refl

update_handler-Settled :
    (configured : List Text) (is_structlog : Bool) (h : Text)
    → Settled (update_handler configured true is_structlog h)
unfolding update_handler
update_handler-Settled configured true h = mapped-Settled h
update_handler-Settled configured false h = structured_or-Settled configured h

-- In the JSON format, what a handler becomes stays as it is when the format is chosen again.
update_handler_twice :
    (configured : List Text) (is_structlog : Bool) (h : Text)
    → update_handler configured true is_structlog (update_handler configured true is_structlog h)
      ≡ update_handler configured true is_structlog h
update_handler_twice configured is_structlog h =
    settled_lem configured is_structlog (update_handler configured true is_structlog h)
      (update_handler-Settled configured is_structlog h)
