-- ===== src/App/Middleware/Correlation.antt =====
-- Which responses carry the identifier of their request.
use backend_prod_ready.Prelude.{
  Bool, Option, Text, false, if◌then◌else◌, ltb, none, some, true, ℕ, ◌&&◌, ◌≡◌, refl, ◌≢◌,
  Bool-cases, arith, inl, inr, leb, text_eq,
}
use backend_prod_ready.Dict.{find}
use backend_prod_ready.Dict.Laws.{find-put_self}
use backend_prod_ready.Exec.{Result, ok, raised}
use backend_prod_ready.Security.Admission.{
  Admission, admitted, arrive, exempt, is_exempt, rejected, Admission,
}
use backend_prod_ready.App.Middleware.{
  timeout_answer, Answer, Layer, Outcome, Request, Starlette, World, WrapsLast,
  configure_middleware, id_of, request_id_header, with_id, Handler, admission_layer, admit,
  request_id_layer, timeout_layer,
}

-- A response has this identifier in its header, or none; an exception is the application's own.
abbrev pub Carries : {E : Type 0} → Result E Answer → Option Text → Result E Answer → Type 0
Carries own id (ok answer) = find request_id_header answer.headers ≡ id
Carries own id (raised e) = own ≡ raised e

abbrev pub is_admitted : Admission → Bool
is_admitted admitted = true
is_admitted _ = false

arrive-ne-exempt :
    (request : Request) (w : World)
    → is_exempt request.path ≡ false
    → (arrive request.path w.admission).0 ≢ exempt
unfolding arrive
arrive-ne-exempt request w busy e = ground arith

both {ℓ} :
    {A : Type ℓ} (b c : Bool) (x y : A)
    → (if b && c then x else y) ≡ (if b then if c then x else y else y)
both true c x y = refl
both false c x y = refl

module _ {E : Type 0} where
  -- What ends with a TimeoutError of its own.
  abbrev pub raises_timeout : (E → Bool) → Outcome E → Bool
  raises_timeout is_timeout (ok answer, w) = false
  raises_timeout is_timeout (raised e, w) = is_timeout e

  -- What the application and the CORS layer do with a request that reaches them.
  abbrev pub inside : Handler E → Text → Request → World → Outcome E
  inside inner fresh request w =
      inner request (record w { context_id = some (id_of fresh request) })

  timeout_answer-Carries :
      (id : Text) (is_timeout : E → Bool) (limit : ℕ) (o : Outcome E)
      → Carries o.0
          (if raises_timeout is_timeout o then none else some id)
          (timeout_answer E is_timeout limit (with_id E id o)).0
  unfolding timeout_answer with_id find text_eq
  timeout_answer-Carries id is_timeout limit (ok answer, w) =
      find-put_self request_id_header id answer.headers
  timeout_answer-Carries id is_timeout limit (raised e, w) = elim (Bool-cases (is_timeout e)) [
    | inl own ↦ rw own refl
    | inr other ↦ rw other refl
  ]

  timeout-Carries :
      (inner : Handler E) (fresh : Text) (is_timeout : E → Bool) (limit : ℕ) (lasts : Request → ℕ)
      (cancelled : Request → World → World) (request : Request) (w : World)
      → is_exempt request.path ≡ false
      → Carries
          (inside inner fresh request w).0
          (if ltb (lasts request) limit
            then (if raises_timeout is_timeout (inside inner fresh request w)
                then none
                else some (id_of fresh request))
            else none)
          (timeout_layer E is_timeout limit lasts cancelled
            (request_id_layer E fresh inner)
            request
            w).0
  unfolding timeout_layer request_id_layer find text_eq
  timeout-Carries inner fresh is_timeout limit lasts cancelled request w busy =
      elim (Bool-cases (ltb (lasts request) limit)) [
        | inl early ↦
            let in_time : leb limit (lasts request) ≡ false = ground arith in
            rw (busy, early, in_time)
              (timeout_answer-Carries (id_of fresh request) is_timeout limit
                (inside inner fresh request w))
        | inr late ↦
            let cut_off : leb limit (lasts request) ≡ true = ground arith in
            rw (busy, late, cut_off) refl
      ]

  admit-Carries :
      (own : Result E Answer) (id : Option Text) (call_next : Handler E) (request : Request)
      (w : World) (a : Admission)
      → a ≢ exempt
      → Carries own id (call_next request w).0
      → Carries own (if is_admitted a then id else none) (admit E call_next request w a).0
  unfolding admit find text_eq
  admit-Carries own id call_next request w exempt n c = absurd (n refl)
  admit-Carries own id call_next request w rejected n c = refl
  admit-Carries own id call_next request w admitted n c = c

  stack_lem :
      (starlette : Starlette E)
      → WrapsLast E starlette
      → (cors : Layer E) (fresh : Text) (is_timeout : E → Bool) (limit : ℕ) (lasts : Request → ℕ)
        (cancelled : Request → World → World) (app : starlette.App)
      → starlette.run
          (configure_middleware E starlette cors fresh is_timeout limit lasts cancelled app)
        ≡ admission_layer E (
            timeout_layer E is_timeout limit lasts cancelled
              (request_id_layer E fresh (cors (starlette.run app))))
  unfolding configure_middleware
  stack_lem starlette outer cors fresh is_timeout limit lasts cancelled app =
      rw (outer.outermost, outer.outermost, outer.outermost, outer.outermost)

  -- Behind the stack as it is configured, where the layer that was added last is the outermost, the
  -- response to a request on a path that is not exempt carries the identifier of the request exactly
  -- if the request is admitted, is answered in time and does not end with a TimeoutError of the
  -- application: one that is rejected at capacity or times out carries none, whatever the request brought.
  -- What is raised through the stack is what the application raised.
  pub correlated_exactly :
      (starlette : Starlette E)
      → WrapsLast E starlette
      → (cors : Layer E) (fresh : Text) (is_timeout : E → Bool) (limit : ℕ) (lasts : Request → ℕ)
        (cancelled : Request → World → World) (app : starlette.App) (request : Request) (w : World)
      → is_exempt request.path ≡ false
      → let (admission, m) = arrive request.path w.admission in
        let reached =
          inside (cors (starlette.run app)) fresh request (record w { admission = m }) in
        Carries reached.0
          (if is_admitted admission && ltb (lasts request) limit
            then (if raises_timeout is_timeout reached then none else some (id_of fresh request))
            else none)
          (starlette.run
            (configure_middleware E starlette cors fresh is_timeout limit lasts cancelled app)
            request
            w).0
  unfolding admission_layer
  correlated_exactly starlette outer cors fresh is_timeout limit lasts cancelled app request w
        busy =
      let a = (arrive request.path w.admission).0 in
      let w' = record w { admission = (arrive request.path w.admission).1 } in
      let inner = cors (starlette.run app) in
      let limited =
        timeout_layer E is_timeout limit lasts cancelled (request_id_layer E fresh inner) in
      let carried = timeout-Carries inner fresh is_timeout limit lasts cancelled request w' busy in
      rw (stack_lem starlette outer cors fresh is_timeout limit lasts cancelled app, both)
        (admit-Carries _ _ limited request w' a (arrive-ne-exempt request w busy) carried)
