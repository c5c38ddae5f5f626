-- ===== src/Examples/Server.antt =====
-- A small server and small libraries in the place of the packages that the backend uses.
use backend_prod_ready.Prelude.{
  Text, [], codes, if◌then◌else◌, is_empty, length, none, refl, some, true, ◌%◌, ◌+◌, ◌∷◌, arith,
  false, ℕ, ◌≡◌, ◌∙◌,
}
use backend_prod_ready.Cache.Memory
use backend_prod_ready.Cache.Memory.{Memory, delete, get, set, view}
use backend_prod_ready.Cache.Redis.{Connect, IsReliable, Redis, connected, done}
use backend_prod_ready.Cache.Service.{World, init, prod}
use backend_prod_ready.Cache.Memory.Lookup.{
  IsDict, delete-IsDict, get-IsDict, get-view, set-IsDict, setnx-IsDict, setnx-view, view-delete,
  view-get, view-set_ne, view-set_self, view-setnx,
}
use backend_prod_ready.Cache.Store.Fallback.{fresh_live}
use backend_prod_ready.Cache.Store.Connected.{IsConnected}
use backend_prod_ready.Idempotency.{Codec}
use backend_prod_ready.Idempotency.Keys.{HasHexDigest, is_hex}

-- A server whose connections all end in one way, and whose data is a dict with lifetimes.
abbrev pub server_with : Connect → Redis
server_with c = record {
  Db = Memory;
  connect = λ db. (c, db);
  get = λ now k. Memory.get now k;
  set = λ now k v ttl. Memory.set now k v ttl;
  set_nx = λ now k v ttl. Memory.setnx now k v ttl;
  delete = λ now k. Memory.delete k;
  ping = λ db. (true, db);
  call = λ A f db. (let (a, db') = f db in (done a, db'));
}

abbrev pub empty_memory : Memory
empty_memory = record { cache = []; max_size = 100 }

-- A service that has not connected yet.
abbrev pub fresh_world : (c : Connect) → World (server_with c)
fresh_world c = record { clock = 100; service = init; db = empty_memory }

pub server-IsReliable : IsReliable (server_with connected) (λ now db. view now db) IsDict
server-IsReliable = record {
  call_runs = λ A f db. refl;
  ping_true = λ db v. refl;
  get_view = λ now k db v. get-view now k db;
  view_get = λ now k j db v. view-get now k db now j (omega arith) v;
  get_valid = λ now k db v. get-IsDict now k db v;
  set_nx_view = λ now k x ttl db p v. setnx-view now k db x (some ttl);
  view_set_nx = λ now k x ttl db j p v.
      view-setnx now k db x (some ttl) now j ∙ rw (fresh_live now (some ttl));
  set_nx_valid = λ now k x ttl db p v. setnx-IsDict now k db x (some ttl) v;
  view_set_self = λ now k x ttl db p v. view-set_self now k x ttl db now ∙ rw (fresh_live now ttl);
  view_set_ne = λ now k x ttl db j p v other. view-set_ne now k x ttl db now j v other;
  set_valid = λ now k x ttl db p v. set-IsDict now k x ttl db v;
  view_delete = λ now k j db v. view-delete now k db j v;
  delete_valid = λ now k db v. delete-IsDict now k db v;
}

-- A service that is connected.
abbrev pub connected_world : World (server_with connected)
connected_world = record {
  clock = 100;
  service = record init { initialized = true; redis_client = true };
  db = empty_memory;
}

pub connected_world-IsConnected :
    IsConnected (server_with connected) prod server-IsReliable connected_world
connected_world-IsConnected = record {
  initialized = refl;
  client = refl;
  no_fallback = refl;
  valid = tt;
}

-- Responses are texts, of which the empty one does neither serialise nor read back; a digest is a digit for the length
-- of the text with zeros after it.
abbrev pub codec : Codec
codec = record {
  Json = Text;
  sha256 = λ t.
      (48 + length t % 10)
      ∷ codes "000000000000000000000000000000000000000000000000000000000000000";
  dumps = λ t. if is_empty t then none else some t;
  loads = λ t. if is_empty t then none else some t;
}

digit_hex : (n : ℕ) → (if is_hex (48 + n % 10) then true else false) ≡ true
digit_hex n = ground arith

pub codec-HasHexDigest : HasHexDigest codec
codec-HasHexDigest = record { digest_length = λ t. refl; digest_hex = λ t. digit_hex (length t) }
