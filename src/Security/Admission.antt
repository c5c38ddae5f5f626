-- ===== src/Security/Admission.antt =====
-- `AdmissionControlMiddleware` of backend/core/api/middleware/admission_control.py. A request runs in
-- two steps of the event loop: `arrive`, from the call of `dispatch` to the call of the next handler,
-- which has no point where another task can run, and `finish`, the `finally` block. The semaphore is
-- asyncio's: `locked` is a value of 0, `acquire` of a free one takes a permit at once.
use backend_prod_ready.Prelude.{
  Bool, List, Option, Text, [], any, arith, codes, ends_with, if◌then◌else◌, none, refl, rstrip,
  some, ℕ, ◌+◌, ◌-◌, ◌<◌, ◌==◌, ◌∙◌, ◌∷◌, ◌≡◌, ◌≤◌,
}

pub record Middleware : Type 0 where
  pub max_concurrent : ℕ
  -- `_semaphore`: none until it is first used, then the permits that are left
  pub semaphore : Option ℕ
  pub current_requests : ℕ
  pub total_rejected : ℕ

-- `__init__`: `max_concurrent or SETTINGS.APP.MAX_CONCURRENT_REQUESTS`
unfoldable pub new : Option ℕ → ℕ → Middleware
new none setting = record {
  max_concurrent = setting;
  semaphore = none;
  current_requests = 0;
  total_rejected = 0;
}
new (some n) setting = record {
  max_concurrent = if n == 0 then setting else n;
  semaphore = none;
  current_requests = 0;
  total_rejected = 0;
}

-- EXEMPT_PATHS
abbrev pub exempt_paths : List Text
exempt_paths = codes "/health" ∷ codes "/ready" ∷ codes "/live" ∷ codes "/metrics" ∷ []

-- `_is_exempt`
unfoldable pub is_exempt : Text → Bool
is_exempt path =
    let clean_path = rstrip (λ c. c == b'/') path in
    any (λ exempt. ends_with exempt clean_path) exempt_paths

-- `_get_semaphore`
unfoldable pub permits : Middleware → ℕ
permits m = elim m.semaphore [ none ↦ m.max_concurrent | some n ↦ n ]

pub data Admission : Type 0 where
  -- passed on without a permit
  exempt : Admission
  -- passed on with a permit
  admitted : Admission
  -- 503 with Retry-After
  rejected : Admission

-- `dispatch` up to `call_next`
unfoldable pub arrive : Text → Middleware → Admission × Middleware
unfolding permits
arrive path m =
    if is_exempt path
    then (exempt, m)
    else (let n = permits m in
        if n == 0
        then (rejected, record m { semaphore = some n; total_rejected = m.total_rejected + 1 })
        else (
          admitted,
          record m { semaphore = some (n - 1); current_requests = m.current_requests + 1 },
        ))

-- The `finally` block of an admitted request.
unfoldable pub finish : Middleware → Middleware
unfolding permits
finish m = record m { current_requests = m.current_requests - 1; semaphore = some (permits m + 1) }

-- A step of the event loop. Only a request that was admitted and runs can finish.
pub data Step : Middleware → Middleware → Type 0 where
  arrival : (path : Text) (m : Middleware) → Step m (arrive path m).1
  completion : (m : Middleware) → 0 < m.current_requests → Step m (finish m)

pub data Reach (s : Middleware) : Middleware → Type 0 where
  here : Reach s s
  next : {t u : Middleware} → Reach s t → Step t u → Reach s u

-- Every permit is free or held by a running request.
pub record IsBalanced (m : Middleware) : Type 0 where
  pub balance : permits m + m.current_requests ≡ m.max_concurrent

new-IsBalanced : (n : Option ℕ) (setting : ℕ) → IsBalanced (new n setting)
unfolding new permits
new-IsBalanced none setting = record { balance = omega arith }
new-IsBalanced (some n) setting = record { balance = omega arith }

arrive-IsBalanced : (path : Text) (m : Middleware) → IsBalanced m → IsBalanced (arrive path m).1
unfolding arrive
arrive-IsBalanced path m b = ground arith

finish-IsBalanced : (m : Middleware) → 0 < m.current_requests → IsBalanced m → IsBalanced (finish m)
unfolding finish
finish-IsBalanced m h b = ground arith

Step-IsBalanced : {m m' : Middleware} → Step m m' → IsBalanced m → IsBalanced m'
Step-IsBalanced (arrival path m) b = arrive-IsBalanced path m b
Step-IsBalanced (completion m h) b = finish-IsBalanced m h b

Reach-IsBalanced : {s m : Middleware} → Reach s m → IsBalanced s → IsBalanced m
Reach-IsBalanced here b = b
Reach-IsBalanced (next r st) b = Step-IsBalanced st (Reach-IsBalanced r b)

arrive-max : (path : Text) (m : Middleware) → (arrive path m).1.max_concurrent ≡ m.max_concurrent
unfolding arrive
arrive-max path m = ground arith

finish-max : (m : Middleware) → (finish m).max_concurrent ≡ m.max_concurrent
unfolding finish
finish-max m = refl

Reach-max : {s m : Middleware} → Reach s m → m.max_concurrent ≡ s.max_concurrent
Reach-max here = refl
Reach-max (next r (arrival path m)) = arrive-max path m ∙ Reach-max r
Reach-max (next r (completion m h)) = finish-max m ∙ Reach-max r

-- However requests arrive and finish, from a new middleware: the requests that run and the permits
-- that are left add up to the maximum, so no more than the maximum run at once.
pub Reach-bounded :
    (n : Option ℕ) (setting : ℕ) {m : Middleware}
    → Reach (new n setting) m
    → (permits m + m.current_requests ≡ (new n setting).max_concurrent)
      × (m.current_requests ≤ (new n setting).max_concurrent)
Reach-bounded n setting r =
    let b = (Reach-IsBalanced r (new-IsBalanced n setting)).balance in
    let e = Reach-max r in (b ∙ e, omega (arith, b, e))

-- What a middleware whose permits balance does with a request, in terms of the requests that run: an
-- exempt path passes and changes nothing; any other is rejected exactly if the maximum of requests
-- run, and then only the rejections are counted; else it runs and holds one of the free permits.
pub arrive_exact :
    (path : Text) (m : Middleware)
    → IsBalanced m
    → arrive path m ≡ (
        if is_exempt path
        then (exempt, m)
        else if m.current_requests == m.max_concurrent
        then (rejected, record m { semaphore = some 0; total_rejected = m.total_rejected + 1 })
        else (
          admitted,
          record m {
            semaphore = some (m.max_concurrent - m.current_requests - 1);
            current_requests = m.current_requests + 1;
          },
        ))
unfolding arrive
arrive_exact path m b = ground (arith, b.balance)
