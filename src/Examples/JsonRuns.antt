-- ===== src/Examples/JsonRuns.antt =====
-- The theorems on the JSON methods of the cache at concrete inputs.
use backend_prod_ready.Prelude.{
  ℕ, Option, Text, [], codes, if◌then◌else◌, length, none, refl, some, text_eq, true, ◌∷◌, ◌≡◌, any,
}
use backend_prod_ready.Exec.{ok}
use backend_prod_ready.Cache.Memory.{Memory}
use backend_prod_ready.Cache.Redis.{Reply, connected}
use backend_prod_ready.Cache.Service.{World, dev, init}
use backend_prod_ready.Cache.Store.Fallback.{InFallback}
use backend_prod_ready.Cache.Json.{
  FieldValue, datetime, text, JsonCodec, get_json, object, set_json,
}
use backend_prod_ready.Cache.Json.Restored.{PutsField, as_date, is_date}
use backend_prod_ready.Cache.Json.Stored.{get_json-set_json}
use backend_prod_ready.Examples.Server.{empty_memory, server_with}

-- A dict is a function from its fields.
abbrev Values : Type 0
Values = Text → Option (FieldValue ℕ)

-- The text of a dict is that under `created_at`, and it reads back as a dict with that text under the
-- names of both dates and under `title`.
abbrev text_of : Option (FieldValue ℕ) → Option Text
text_of (some (text t)) = some t
text_of _ = none

abbrev read_values : Text → Values
read_values t field =
    if any (text_eq field) (codes "created_at" ∷ codes "updated_at" ∷ codes "title" ∷ [])
    then some (text t)
    else none

-- A date is the length of its text.
abbrev json_codec : JsonCodec
json_codec = record {
  Object = Values;
  Datetime = ℕ;
  dumps = λ o. text_of (o (codes "created_at"));
  loads = λ t. object (read_values t);
  value_at = λ field o. o field;
  fromisoformat = λ t. some (length t);
  put_datetime = λ field d o j. (if text_eq field j then some (datetime d) else o j);
}

json_codec-PutsField : PutsField json_codec
json_codec-PutsField = record { value_put = λ field j d o. refl }

abbrev pass_on :
    (A : Type 0)
    → ((server_with connected).Db → Reply A × (server_with connected).Db)
    → (server_with connected).Db
    → Reply A × (server_with connected).Db
pass_on A f db = f db

abbrev fallback_over : Memory → World (server_with connected)
fallback_over m = record {
  clock = 100;
  service = record init { initialized = true; using_fallback = true; in_memory_cache = some m };
  db = empty_memory;
}

empty-InFallback : InFallback (server_with connected) dev (fallback_over empty_memory)
empty-InFallback = record { initialized = refl; active = refl; present = refl; distinct = tt }

get_json-set_json_example :
    let saved =
      (set_json json_codec
        (server_with connected)
        dev
        pass_on
        (codes "a")
        (read_values (codes "2024"))
        (some 5)
        (fallback_over empty_memory)).1 in
    (restored : Values) × ((get_json json_codec
        (server_with connected)
        dev
        pass_on
        (codes "a")
        saved).0
      ≡ ok (some restored))
    × ((field : Text)
        → restored field ≡ (
            if is_date field
            then as_date json_codec (read_values (codes "2024") field)
            else read_values (codes "2024") field))
unfolding text_eq
get_json-set_json_example =
    get_json-set_json json_codec (server_with connected) dev pass_on json_codec-PutsField
      (codes "a") (read_values (codes "2024")) (read_values (codes "2024")) (some 5) (codes "2024")
      (fallback_over empty_memory) refl refl refl refl empty-InFallback
