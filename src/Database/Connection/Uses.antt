-- ===== src/Database/Connection/Uses.antt =====
-- The adapter over a sequence of uses.
use backend_prod_ready.Prelude.{
  Bool, List, Option, [], all, arith, false, if_cases, none, refl, some, subst, sym, true, ℕ, ◌+◌,
  ◌∷◌, ◌≡◌,
}
use backend_prod_ready.Exec.{Result, continue, ok, raised}
use backend_prod_ready.Database.Connection.{
  Adapter, ConnectEnd, ConnectionError, Use, async_failed, connect_sync, connected, create_session,
  disposing, ensure_initialized, get, getting, initialize, initializing, listeners_failed, new,
  package_error, perform, perform_all, present, sync_failed, verify,
}
use backend_prod_ready.Database.Connection.Engines.{
  IsTidy, Tidy, connect_sync-IsTidy, dispose-IsTidy, ensure_initialized-IsTidy, is_clean, is_whole,
  present-same, verify-same,
}

initialize-IsTidy :
    (end : ConnectEnd) (answers : Bool) (a : Adapter)
    → is_clean end ≡ true
    → IsTidy a
    → IsTidy (initialize end answers a).1
unfolding initialize
initialize-IsTidy connected answers a c t =
    if_cases (λ (r : Result ConnectionError (Unit {0}) × Adapter). IsTidy r.1) a.initialized _ _
      (λ on. t)
      (λ off.
        subst IsTidy (sym (verify-same answers (connect_sync connected a).1))
          (connect_sync-IsTidy connected a c off t))
initialize-IsTidy async_failed answers a c t =
    if_cases (λ (r : Result ConnectionError (Unit {0}) × Adapter). IsTidy r.1) a.initialized _ _
      (λ on. t) (λ off. t)
initialize-IsTidy sync_failed answers a c t = absurd (cc c)
initialize-IsTidy listeners_failed answers a c t = absurd (cc c)

get-same :
    (field : Adapter → Option ℕ) (end : ConnectEnd) (a : Adapter)
    → (get field end a).1 ≡ (ensure_initialized end a).1
unfolding get
get-same field end a = after (ensure_initialized end a)
  where
    after :
        (r : Result ConnectionError (Unit {0}) × Adapter)
        → (continue r (λ _ a. present (field a) a)).1 ≡ r.1
    after (ok _, a) = present-same (field a) a
    after (raised e, a) = refl

perform-IsTidy : (u : Use) (a : Adapter) → is_whole u ≡ true → IsTidy a → IsTidy (perform u a)
unfolding perform
perform-IsTidy (initializing connected answers) a w t = initialize-IsTidy connected answers a refl t
perform-IsTidy (initializing async_failed answers) a w t =
    initialize-IsTidy async_failed answers a refl t
perform-IsTidy (initializing sync_failed answers) a w t = absurd (cc w)
perform-IsTidy (initializing listeners_failed answers) a w t = absurd (cc w)
perform-IsTidy (getting field connected) a w t =
    subst IsTidy (sym (get-same field connected a)) (ensure_initialized-IsTidy connected a refl t)
perform-IsTidy (getting field async_failed) a w t =
    subst IsTidy (sym (get-same field async_failed a))
      (ensure_initialized-IsTidy async_failed a refl t)
perform-IsTidy (getting field sync_failed) a w t = absurd (cc w)
perform-IsTidy (getting field listeners_failed) a w t = absurd (cc w)
perform-IsTidy (disposing end) a w t = dispose-IsTidy end a w t

perform_all-IsTidy :
    (us : List Use) (a : Adapter) → all is_whole us ≡ true → IsTidy a → IsTidy (perform_all us a)
unfolding perform_all
perform_all-IsTidy [] a w t = t
perform_all-IsTidy (u ∷ us) a w t =
    perform_all-IsTidy us (perform u a) (ground arith) (perform-IsTidy u a (ground arith) t)

present-some : (o : Option ℕ) (m : ℕ) (a : Adapter) → o ≡ some m → present o a ≡ (ok m, a)
present-some none m a e = absurd (cc e)
present-some (some p) m a e = cc e

session_created :
    (b : Bool) (a : Adapter)
    → a.initialized ≡ b
    → Tidy b a
    → (m : ℕ) × (n : ℕ) × ((create_session none connected a).0 ≡ ok m)
      × ((create_session none connected a).1.open_engines ≡ n ∷ m ∷ [])
unfolding create_session connect_sync
session_created false a off t =
    (a.created, a.created + 1, ground (arith, off), ground (arith, off, t))
session_created true a on (m, _, e, _, n, _, _, opened) =
    (m, n, ground (arith, on, e, opened), ground (arith, on, e, opened))

-- However a new adapter is used, where connecting and disposing do not stop half-way: the open engines
-- are those that its factories are bound to, none if it is not initialized; and creating a session
-- then answers with one over an open engine, if it can connect.
pub engines-IsTidy :
    (us : List Use)
    → all is_whole us ≡ true
    → let a = perform_all us new in
      IsTidy a
      × (m : ℕ) × (n : ℕ) × ((create_session none connected a).0 ≡ ok m)
      × ((create_session none connected a).1.open_engines ≡ n ∷ m ∷ [])
engines-IsTidy us w =
    let t = perform_all-IsTidy us new w refl in
    let made = session_created (perform_all us new).initialized (perform_all us new) refl t in
    (t, made.0, made.1, made.2, made.3)

-- A first verification that fails is not repeated: after an `initialize` that connects and whose
-- statement fails, the next returns at once, whatever the database would do.
pub verification_skipped :
    (a : Adapter) (end : ConnectEnd) (answers : Bool)
    → a.initialized ≡ false
    → ((initialize connected false a).0 ≡ raised package_error)
      × (initialize end answers (initialize connected false a).1
          ≡ (ok tt, (initialize connected false a).1))
unfolding initialize connect_sync verify
verification_skipped a end answers off = (ground arith, ground arith)
