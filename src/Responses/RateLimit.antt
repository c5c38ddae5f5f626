-- ===== src/Responses/RateLimit.antt =====
-- backend/core/security/rate_limiting.py: the key of a client and the response to a client that
-- exceeds its limit. The limiter is the package slowapi's. The module backend.core.auth.jwt, which
-- the key imports, is not in the repository and a parameter.
use backend_prod_ready.Prelude.{
  List, Option, Text, [], codes, false, if◌then◌else◌, is_empty, is_space, none, refl, reverse,
  some, split, starts_with, ℕ, ◌++◌, ◌∷◌, ◌≡◌,
}
use backend_prod_ready.Exec.{Result, ok}
use backend_prod_ready.Security.Proxy.{
  IpAddress, ConfigurationError, extract_client_ip_secure, then_result,
}
use backend_prod_ready.Responses.{Response, decimal, number}
use backend_prod_ready.Responses.Validation.{has_text}

-- `text.split()`: the words between white space.
words_from : Text → Text → List Text
words_from [] [] = []
words_from (c ∷ word) [] = reverse (c ∷ word) ∷ []
words_from word (c ∷ s) =
    let skipped = words_from [] s in
    let longer = words_from (c ∷ word) s in
    if is_space c then (if is_empty word then skipped else reverse word ∷ skipped) else longer

unfoldable pub words : Text → List Text
unfolding words_from
words s = words_from [] s

-- `_retry_after` of `rate_limit_exceeded_handler`, for the text of the detail if it is truthy
unfoldable pub retry_after : Option Text → ℕ
unfolding words
retry_after none = 60
retry_after (some detail) =
    if has_text (words detail) (codes "minute")
    then 60
    else if has_text (words detail) (codes "second")
    then 1
    else if has_text (words detail) (codes "hour")
    then 3600
    else 60

-- `rate_limit_exceeded_handler`
unfoldable pub rate_limit_exceeded_handler : Option Text → Response
unfolding retry_after decimal
rate_limit_exceeded_handler detail = record {
  status_code = 429;
  success = false;
  code = codes "RATE_LIMIT_EXCEEDED";
  message = codes "Rate limit exceeded. Please try again later.";
  context = some ((codes "retry_after", number (retry_after detail)) ∷ []);
  headers = (codes "Retry-After", decimal (retry_after detail)) ∷ [];
}

-- What `jwt_decode` does with a token: a payload with its `user_id` as text, if it has one, or
-- JWTTokenError.
pub data Decoded : Type 0 where
  payload : Option Text → Decoded
  jwt_error : Decoded

-- What the key reads of a request: its headers, if they are there, and the address.
pub record Client : Type 0 where
  pub authorization : Option Text
  pub x_forwarded_for : Option Text
  pub direct_ip : Option Text

-- `_auth_header.split(" ")[1]`
second_part : List Text → Option Text
second_part (a ∷ b ∷ _) = some b
second_part _ = none

-- The user of a token in the header, if the module of the decoder can be imported.
unfoldable pub token_user : Option (Text → Decoded) → Option Text → Option Text
unfolding starts_with split second_part
token_user none header = none
token_user (some jwt_decode) none = none
token_user (some jwt_decode) (some header) =
    if starts_with (codes "Bearer ") header
    then elim (second_part (split b' ' header)) [
      | none ↦ none
      | some token ↦ elim (jwt_decode token) [ jwt_error ↦ none | payload user ↦ user ]
    ]
    else none

module _ (lib : IpAddress) (cidrs : List Text) where
  -- `extract_client_ip`
  unfoldable pub extract_client_ip : Client → Result ConfigurationError Text
  extract_client_ip client =
      extract_client_ip_secure lib cidrs client.x_forwarded_for client.direct_ip

  -- `get_user_id_or_ip`, where the module of the decoder is None if it cannot be imported
  unfoldable pub get_user_id_or_ip :
      Option (Text → Decoded) → Client → Result ConfigurationError Text
  unfolding token_user extract_client_ip
  get_user_id_or_ip jwt client = elim (token_user jwt client.authorization) [
    | some user ↦ ok (codes "user:" ++ user)
    | none ↦ then_result (extract_client_ip client) (λ ip. ok (codes "ip:" ++ ip))
  ]

  -- Without the module of the decoder, clients with the same address share a key, whatever tokens
  -- they send.
  pub key_without_jwt :
      (client : Client) (authorization : Option Text)
      → get_user_id_or_ip none (record client { authorization = authorization })
        ≡ then_result (extract_client_ip client) (λ ip. ok (codes "ip:" ++ ip))
  unfolding get_user_id_or_ip token_user extract_client_ip
  key_without_jwt client authorization = refl
