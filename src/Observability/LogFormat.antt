-- ===== src/Observability/LogFormat.antt =====
-- `_apply_logging_format` of backend/core/observability/logging.py, which chooses the handlers of the
-- loggers. Of the configuration, the names of its handlers and those that the root and the loggers use.
pub mod Applied
pub mod Twice
use backend_prod_ready.Prelude.{
  Bool, List, Option, Text, [], any, codes, false, if◌then◌else◌, map, none, not, some, text_eq,
  true, ◌||◌, ◌∷◌,
}
use backend_prod_ready.Dict.{Dict, find}

pub record LogConfig : Type 0 where
  -- the keys of config["handlers"]
  pub handlers : List Text
  -- config["root"]["handlers"], if both are there
  pub root : Option (List Text)
  -- config["loggers"]: the handlers of each, if it names any
  pub loggers : Dict (Option (List Text))

abbrev pub contains : Text → List Text → Bool
contains name = any (text_eq name)

abbrev pub structlog_loggers : List Text
structlog_loggers = codes "app" ∷ codes "backend.core.infrastructure.dbos_config" ∷ []

abbrev pub standard_loggers : List Text
standard_loggers =
    codes "uvicorn"
    ∷ codes "uvicorn.error"
    ∷ codes "uvicorn.access"
    ∷ codes "sqlalchemy"
    ∷ codes "sqlalchemy.engine"
    ∷ codes "dbos"
    ∷ codes "httpx"
    ∷ codes "openai"
    ∷ codes "slowapi"
    ∷ codes "watchfiles"
    ∷ []

abbrev pub handler_mapping : Dict Text
handler_mapping =
    (codes "console", codes "console_json")
    ∷ (codes "file", codes "file_json")
    ∷ (codes "error_file", codes "error_file_json")
    ∷ []

abbrev pub structured_handler_mapping : Dict Text
structured_handler_mapping =
    (codes "console", codes "console_json_structured")
    ∷ (codes "file", codes "file_json_structured")
    ∷ (codes "error_file", codes "error_file_json_structured")
    ∷ []

-- `{v: k for k, v in handler_mapping.items()}`
unfoldable pub reversed : Dict Text → Dict Text
reversed [] = []
reversed ((k, v) ∷ entries) = (v, k) ∷ reversed entries

abbrev pub value_or : Text → Option Text → Text
value_or default none = default
value_or default (some v) = v

-- `mapping.get(handler, handler)`
unfoldable pub mapped : Dict Text → Text → Text
mapped mapping handler = value_or handler (find handler mapping)

-- The handler for a standard logger: the structured one if it is configured.
unfoldable pub structured_or : List Text → Text → Option Text → Text
unfolding mapped
structured_or configured handler none = mapped handler_mapping handler
structured_or configured handler (some structured) =
    if contains structured configured then structured else mapped handler_mapping handler

-- One round of `update_handlers`.
unfoldable pub update_handler : List Text → Bool → Bool → Text → Text
unfolding structured_or mapped reversed
update_handler configured false is_structlog handler = mapped (reversed handler_mapping) handler
update_handler configured true true handler = mapped handler_mapping handler
update_handler configured true false handler =
    structured_or configured handler (find handler structured_handler_mapping)

-- `update_handlers`
unfoldable pub update_handlers : List Text → Bool → Bool → List Text → List Text
update_handlers configured use_json is_structlog =
    map (update_handler configured use_json is_structlog)

abbrev pub update_some : (List Text → List Text) → Option (List Text) → Option (List Text)
update_some update none = none
update_some update (some handlers) = some (update handlers)

abbrev pub is_structlog_logger : Text → Bool
is_structlog_logger name = contains name structlog_loggers || not (contains name standard_loggers)

-- The loop over the loggers.
unfoldable pub update_loggers :
    List Text → Bool → Dict (Option (List Text)) → Dict (Option (List Text))
unfolding update_handlers
update_loggers configured use_json [] = []
update_loggers configured use_json ((name, handlers) ∷ loggers) =
    (name, update_some (update_handlers configured use_json (is_structlog_logger name)) handlers)
    ∷ update_loggers configured use_json loggers

-- `_apply_logging_format`
unfoldable pub apply_logging_format : Bool → LogConfig → LogConfig
unfolding update_handlers update_loggers
apply_logging_format use_json config = record config {
  root = update_some (update_handlers config.handlers use_json true) config.root;
  loggers = update_loggers config.handlers use_json config.loggers;
}
