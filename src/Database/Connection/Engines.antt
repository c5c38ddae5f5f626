-- ===== src/Database/Connection/Engines.antt =====
-- Which engines are open.
use backend_prod_ready.Prelude.{
  Bool, [], false, some, true, ℕ, ◌∷◌, ◌≡◌, List, Option, ap, arith, if_cases, is_none, none, refl,
  subst, ◌+◌,
}
use backend_prod_ready.Exec.{Result}
use backend_prod_ready.Database.Connection.{
  Adapter, ConnectEnd, Use, async_failed, async_refused, connect_sync, connected, disposed,
  disposing, getting, initializing, listeners_failed, sync_failed, ConnectionError, dispose,
  dispose_engine, ensure_initialized, present, verify, without, DisposeEnd, sync_refused,
}

abbrev pub Tidy : Bool → Adapter → Type 0
Tidy false a = a.open_engines ≡ []
Tidy true a =
    (m : ℕ) × (a.engine ≡ some m)
    × (a.session_factory ≡ some m)
    × (a.async_scoped_session ≡ some m)
    × (n : ℕ) × (a.sync_engine ≡ some n)
    × (a.sync_session_factory ≡ some n)
    × (a.open_engines ≡ n ∷ m ∷ [])

-- The open engines are those in use: none before the first use and after a disposal, and else the
-- two that the factories are bound to.
abbrev pub IsTidy : Adapter → Type 0
IsTidy a = Tidy a.initialized a

-- Neither connecting nor disposing stops half-way.
abbrev pub is_whole : Use → Bool
is_whole (initializing connected answers) = true
is_whole (initializing async_failed answers) = true
is_whole (getting field connected) = true
is_whole (getting field async_failed) = true
is_whole (disposing disposed) = true
is_whole (disposing async_refused) = true
is_whole _ = false

abbrev pub is_clean : ConnectEnd → Bool
is_clean connected = true
is_clean async_failed = true
is_clean _ = false

pub connect_sync-IsTidy :
    (end : ConnectEnd) (a : Adapter)
    → is_clean end ≡ true
    → a.initialized ≡ false
    → IsTidy a
    → IsTidy (connect_sync end a).1
unfolding connect_sync
connect_sync-IsTidy connected a c i t =
    let nothing_open : a.open_engines ≡ [] = subst (λ b. Tidy b a) i t in
    (
      a.created,
      refl,
      refl,
      refl,
      a.created + 1,
      refl,
      refl,
      ap (λ (l : List ℕ). (a.created + 1) ∷ (a.created ∷ l)) nothing_open,
    )
connect_sync-IsTidy async_failed a c i t = t
connect_sync-IsTidy sync_failed a c i t = absurd (cc c)
connect_sync-IsTidy listeners_failed a c i t = absurd (cc c)

pub ensure_initialized-IsTidy :
    (end : ConnectEnd) (a : Adapter)
    → is_clean end ≡ true
    → IsTidy a
    → IsTidy (ensure_initialized end a).1
unfolding ensure_initialized
ensure_initialized-IsTidy end a c t =
    if_cases (λ (r : Result ConnectionError (Unit {0}) × Adapter). IsTidy r.1) a.initialized _ _
      (λ on. t) (λ off. connect_sync-IsTidy end a c off t)

-- A getter and a verification leave the adapter as it is.
pub present-same : (o : Option ℕ) (a : Adapter) → (present o a).1 ≡ a
present-same none a = refl
present-same (some n) a = refl

pub verify-same : (answers : Bool) (a : Adapter) → (verify answers a).1 ≡ a
unfolding verify
verify-same true a = refl
verify-same false a =
    if_cases (λ (r : Result ConnectionError (Unit {0}) × Adapter). r.1 ≡ a) (is_none a.engine) _ _
      (λ h. refl) (λ h. refl)

dispose_engine-empty :
    (o : Option ℕ) (a : Adapter) → a.open_engines ≡ [] → (dispose_engine o a).open_engines ≡ []
unfolding dispose_engine
dispose_engine-empty none a h = h
dispose_engine-empty (some n) a h = rw h

without_both : (m n : ℕ) → without n (without m (n ∷ m ∷ [])) ≡ []
without_both m n = ground arith

dispose_both :
    (o o' : Option ℕ) (m n : ℕ) (a : Adapter)
    → o ≡ some m
    → o' ≡ some n
    → a.open_engines ≡ n ∷ m ∷ []
    → (dispose_engine o' (dispose_engine o a)).open_engines ≡ []
unfolding dispose_engine
dispose_both none o' m n a e e' opened = absurd (cc e)
dispose_both (some p) none m n a e e' opened = absurd (cc e')
dispose_both (some p) (some q) m n a e e' opened = rw opened (ground arith)

dispose-closes : (b : Bool) (a : Adapter) → Tidy b a → (dispose disposed a).1.open_engines ≡ []
unfolding dispose
dispose-closes false a t =
    dispose_engine-empty a.sync_engine (dispose_engine a.engine a)
      (dispose_engine-empty a.engine a t)
dispose-closes true a (m, e, _, _, n, e', _, opened) =
    dispose_both a.engine a.sync_engine m n a e e' opened

pub dispose-IsTidy :
    (end : DisposeEnd) (a : Adapter)
    → is_whole (disposing end) ≡ true
    → IsTidy a
    → IsTidy (dispose end a).1
unfolding dispose
dispose-IsTidy disposed a w t = dispose-closes a.initialized a t
dispose-IsTidy async_refused a w t = t
dispose-IsTidy sync_refused a w t = absurd (cc w)
