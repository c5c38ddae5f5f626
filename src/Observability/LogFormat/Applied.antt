-- ===== src/Observability/LogFormat/Applied.antt =====
-- What the choice of the handlers keeps.
use backend_prod_ready.Prelude.{
  Bool, List, Option, Text, all, arith, codes, false, none, some, true, ◌≡◌, [], refl, ◌∷◌,
}
use backend_prod_ready.Dict.{Dict, find}
use backend_prod_ready.Observability.LogFormat.{
  LogConfig, contains, update_handler, apply_logging_format, handler_mapping, is_structlog_logger,
  mapped, reversed, structured_handler_mapping, structured_or, update_handlers, update_loggers,
  update_some,
}

-- The six handlers that the mapping of passthrough handlers and its reverse lead to are configured.
abbrev pub HasAll : List Text → Type 0
HasAll configured =
    (contains (codes "console") configured ≡ true)
    × (contains (codes "file") configured ≡ true)
    × (contains (codes "error_file") configured ≡ true)
    × (contains (codes "console_json") configured ≡ true)
    × (contains (codes "file_json") configured ≡ true)
    × (contains (codes "error_file_json") configured ≡ true)

abbrev pub all_configured : List Text → Option (List Text) → Bool
all_configured configured none = true
all_configured configured (some handlers) = all (λ h. contains h configured) handlers

abbrev pub loggers_configured : List Text → Dict (Option (List Text)) → Bool
loggers_configured configured = all (λ entry. all_configured configured entry.1)

-- Every handler that is used is configured, which `dictConfig` asks for.
abbrev pub IsClosed : LogConfig → Type 0
IsClosed config =
    (all_configured config.handlers config.root ≡ true)
    × (loggers_configured config.handlers config.loggers ≡ true)

value-configured :
    (configured : List Text) (mapping : Dict Text) (h : Text)
    → all (λ (e : Text × Text). contains e.1 configured) mapping ≡ true
    → contains h configured ≡ true
    → contains (mapped mapping h) configured ≡ true
unfolding mapped find
value-configured configured [] h a k = k
value-configured configured ((j, v) ∷ mapping) h a k =
    ground (arith, value-configured configured mapping h)

structured-configured :
    (configured : List Text) (h : Text) (structured : Option Text)
    → contains (mapped handler_mapping h) configured ≡ true
    → contains (structured_or configured h structured) configured ≡ true
unfolding structured_or
structured-configured configured h none k = k
structured-configured configured h (some name) k = ground (arith, k)

update_handler-configured :
    (configured : List Text) (use_json is_structlog : Bool) (h : Text)
    → HasAll configured
    → contains h configured ≡ true
    → contains (update_handler configured use_json is_structlog h) configured ≡ true
unfolding update_handler reversed
update_handler-configured configured false is_structlog h (a, b, c, d, e, f) k =
    value-configured configured (reversed handler_mapping) h (ground (arith, a, b, c)) k
update_handler-configured configured true true h (a, b, c, d, e, f) k =
    value-configured configured handler_mapping h (ground (arith, d, e, f)) k
update_handler-configured configured true false h (a, b, c, d, e, f) k =
    structured-configured configured h (find h structured_handler_mapping)
      (value-configured configured handler_mapping h (ground (arith, d, e, f)) k)

update_handlers-configured :
    (configured : List Text) (use_json is_structlog : Bool) (hs : List Text)
    → HasAll configured
    → all (λ h. contains h configured) hs ≡ true
    → all (λ h. contains h configured) (update_handlers configured use_json is_structlog hs) ≡ true
unfolding update_handlers
update_handlers-configured configured use_json is_structlog [] m k = refl
update_handlers-configured configured use_json is_structlog (h ∷ hs) m k = ground (
  arith,
  update_handlers-configured configured use_json is_structlog hs m,
  update_handler-configured configured use_json is_structlog h m,
)

update_some-configured :
    (configured : List Text) (use_json is_structlog : Bool) (handlers : Option (List Text))
    → HasAll configured
    → all_configured configured handlers ≡ true
    → all_configured configured
        (update_some (update_handlers configured use_json is_structlog) handlers)
      ≡ true
update_some-configured configured use_json is_structlog none m k = refl
update_some-configured configured use_json is_structlog (some hs) m k =
    update_handlers-configured configured use_json is_structlog hs m k

update_loggers-configured :
    (configured : List Text) (use_json : Bool) (loggers : Dict (Option (List Text)))
    → HasAll configured
    → loggers_configured configured loggers ≡ true
    → loggers_configured configured (update_loggers configured use_json loggers) ≡ true
unfolding update_loggers
update_loggers-configured configured use_json [] m k = refl
update_loggers-configured configured use_json ((name, handlers) ∷ loggers) m k = ground (
  arith,
  update_loggers-configured configured use_json loggers m,
  update_some-configured configured use_json (is_structlog_logger name) handlers m,
)

-- If the six handlers of the passthrough mapping are configured, and every handler that the root and
-- the loggers use, that holds after the choice of a format too: the configuration stays one that
-- `dictConfig` accepts, whether the structured handlers are there or not.
pub apply_logging_format-IsClosed :
    (use_json : Bool) (config : LogConfig)
    → HasAll config.handlers
    → IsClosed config
    → IsClosed (apply_logging_format use_json config)
unfolding apply_logging_format
apply_logging_format-IsClosed use_json config m (k, l) = (
  update_some-configured config.handlers use_json true config.root m k,
  update_loggers-configured config.handlers use_json config.loggers m l,
)
