-- ===== src/Examples/LoggingRuns.antt =====
-- The theorem on the handlers of the loggers at a concrete input, and a run.
use backend_prod_ready.Prelude.{List, Text, [], codes, none, refl, some, text_eq, true, ◌∷◌, ◌≡◌}
use backend_prod_ready.Dict.{find}
use backend_prod_ready.Observability.LogFormat.{
  update_handler, LogConfig, apply_logging_format, is_structlog_logger, update_handlers,
}
use backend_prod_ready.Observability.LogFormat.Applied.{IsClosed, apply_logging_format-IsClosed}

abbrev configured : List Text
configured =
    codes "console"
    ∷ codes "file"
    ∷ codes "error_file"
    ∷ codes "console_json"
    ∷ codes "file_json"
    ∷ codes "error_file_json"
    ∷ codes "file_json_structured"
    ∷ codes "console_structlog"
    ∷ []

abbrev config : LogConfig
config = record {
  handlers = configured;
  root = some (codes "console_structlog" ∷ codes "file" ∷ []);
  loggers =
      (codes "uvicorn", some (codes "console_structlog" ∷ codes "file" ∷ codes "error_file" ∷ []))
      ∷ (codes "app", some (codes "console" ∷ codes "file" ∷ []))
      ∷ (codes "quiet", none)
      ∷ [];
}

apply_logging_format-IsClosed_example : IsClosed (apply_logging_format true config)
unfolding text_eq
apply_logging_format-IsClosed_example =
    apply_logging_format-IsClosed true config (refl, refl, refl, refl, refl, refl) (refl, refl)

-- A standard logger has structured handlers where there are any, and its console stays text.
uvicorn_test :
    update_handlers configured true
      (is_structlog_logger (codes "uvicorn"))
      (codes "console_structlog" ∷ codes "file" ∷ codes "error_file" ∷ [])
    ≡ codes "console_structlog" ∷ codes "file_json_structured" ∷ codes "error_file_json" ∷ []
unfolding update_handlers update_handler find text_eq
uvicorn_test = refl
