-- ===== src/Features/Generation.antt =====
-- Text generation of backend/features/ai_generation: the service with its built-in model, and its
-- domain objects. Time, which only dates the result, is left out.
use backend_prod_ready.Prelude.{
  Option, Text, codes, false, if◌then◌else◌, is_empty, length, none, some, strip, take, true, ℕ,
  ◌*◌, ◌++◌, ◌+◌, ◌||◌, ◌≡◌, [], arith, drop_while, refl, rstrip, text_eq, ◌∷◌,
}
use backend_prod_ready.Exec.{Result, ok, raised}
use backend_prod_ready.Dict.{find}
use backend_prod_ready.Dict.{find, put}
use backend_prod_ready.Responses.{decimal, find_shown, text, number, build_error_response}
use backend_prod_ready.Responses.Handlers.{
  domain_exception_handler, domain_status, is_instance, tag,
}
use backend_prod_ready.Responses.Domain.{DomainError, init_prompt, init_validation, init, mro}
use backend_prod_ready.Responses.RateLimit.{words}

pub record TokenUsage : Type 0 where
  pub prompt_tokens : ℕ
  pub completion_tokens : ℕ

-- `total_tokens`
unfoldable pub total_of : TokenUsage → ℕ
total_of usage = usage.prompt_tokens + usage.completion_tokens

pub record TextGeneration : Type 0 where
  pub text : Text
  pub model : Text
  pub usage : TokenUsage

-- `TextGeneration.create`; the counts are not negative
unfoldable pub create : Text → Text → ℕ → ℕ → TextGeneration
create generated model prompt_tokens completion_tokens = record {
  text = generated;
  model = model;
  usage = record { prompt_tokens = prompt_tokens; completion_tokens = completion_tokens };
}

abbrev pub model_name : Text
model_name = codes "demo-model-v1"

-- `_validate_prompt`
unfoldable pub validate_prompt : Text → Option DomainError
unfolding init_prompt
validate_prompt prompt =
    if is_empty prompt || is_empty (strip prompt)
    then some (
        init_prompt (codes "Prompt cannot be empty or whitespace only") (some (length prompt)) none)
    else none

-- `_mock_generate`
unfoldable pub mock_generate : Text → ℕ → Text
unfolding decimal
mock_generate prompt max_tokens =
    codes "Based on your prompt about '"
    ++ take 50 prompt
    ++ codes "...', here is a thoughtful response. "
    ++ codes "This feature demonstrates the identity-plan-kit integration. "
    ++ codes "The AI generation endpoint requires authentication, checks plan features, "
    ++ codes "and tracks usage against quotas. "
    ++ codes "Max tokens: "
    ++ decimal max_tokens
    ++ codes ". "
    ++ codes "Replace this mock with actual AI integration for production use."

-- `generate_text`; the model raises nothing
unfoldable pub generate_text : Text → ℕ → Result DomainError TextGeneration
unfolding validate_prompt mock_generate create words
generate_text prompt max_tokens = elim (validate_prompt prompt) [
  | some e ↦ raised e
  | none ↦
      let generated = mock_generate prompt max_tokens in
      ok (create generated model_name (length (words prompt) * 2) (length (words generated) * 2))
]

-- `GenerationUsageDto` as `usage_to_dto` and `to_response_dto` fill it
pub record GenerationUsage : Type 0 where
  pub prompt_tokens : ℕ
  pub completion_tokens : ℕ
  pub total_tokens : ℕ

-- `usage_to_dto`
unfoldable pub usage_to_dto : ℕ → ℕ → GenerationUsage
usage_to_dto prompt_tokens completion_tokens = record {
  prompt_tokens = prompt_tokens;
  completion_tokens = completion_tokens;
  total_tokens = prompt_tokens + completion_tokens;
}

-- The usage of `to_response_dto`
unfoldable pub response_usage : TextGeneration → GenerationUsage
unfolding total_of
response_usage domain = record {
  prompt_tokens = domain.usage.prompt_tokens;
  completion_tokens = domain.usage.completion_tokens;
  total_tokens = total_of domain.usage;
}

-- The empty text is blank.
blank_lem : (prompt : Text) → is_empty prompt || is_empty (strip prompt) ≡ is_empty (strip prompt)
unfolding strip rstrip drop_while
blank_lem [] = refl
blank_lem (c ∷ prompt) = refl

-- A blank prompt raises what the handler of domain exceptions answers with 400, the code
-- VALIDATION_ERROR, the field prompt and the length of the prompt in the context.
pub blank_prompt_answer :
    (prompt : Text) (max_tokens : ℕ)
    → is_empty (strip prompt) ≡ true
    → (e : DomainError) × (generate_text prompt max_tokens ≡ raised e)
      × ((domain_exception_handler e).status_code ≡ 400)
      × ((domain_exception_handler e).code ≡ codes "VALIDATION_ERROR")
      × (find_shown (codes "field") (domain_exception_handler e).context
          ≡ some (text (codes "prompt")))
      × (find_shown (codes "prompt_length") (domain_exception_handler e).context
          ≡ some (number (length prompt)))
unfolding generate_text validate_prompt domain_exception_handler build_error_response domain_status
    is_instance mro tag init_prompt init_validation init find_shown find put text_eq
blank_prompt_answer prompt max_tokens h = (
  init_prompt (codes "Prompt cannot be empty or whitespace only") (some (length prompt)) none,
  rw (generate_text, validate_prompt, blank_lem prompt, h) refl,
  refl,
  refl,
  refl,
  refl,
)

-- Any other prompt gives a text whose response counts each word of the prompt and of the text twice.
pub prompt_counted :
    (prompt : Text) (max_tokens : ℕ)
    → is_empty (strip prompt) ≡ false
    → (generation : TextGeneration) × (generate_text prompt max_tokens ≡ ok generation)
      × ((response_usage generation).total_tokens
          ≡ 2 * (length (words prompt) + length (words generation.text)))
unfolding generate_text validate_prompt response_usage create total_of
prompt_counted prompt max_tokens h = (
  create (mock_generate prompt max_tokens) model_name (length (words prompt) * 2)
      (length (words (mock_generate prompt max_tokens)) * 2),
  rw (generate_text, validate_prompt, blank_lem prompt, h) refl,
  omega arith,
)
