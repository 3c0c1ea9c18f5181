-- ===== src/Reconcile.antt =====
-- control/internal/reconcile/reconcile.go: the push of the desired state to one load balancer, and
-- the automatic state of a room. The Dataplane API of a load balancer is a parameter; the order in
-- which Go walks through a map, which it leaves open, is the parameter `visit`.
pub mod Servers
pub mod Auto
use flyc.Base.{
  ℕ, zero, suc, ◌+◌, Bool, true, false, ◌&&◌, ◌||◌, not, List, [], ◌∷◌, ◌++◌, map, Option, none,
  some, ltb, ◌==◌, if◌then◌else◌, length, Str, codes, str_eq, join, has_prefix,
}
use flyc.Redis.{M, ◌>>=◌, ◌>>◌, pure, attempt}
use flyc.Compile.{Server, BackendSpec, MapEntry, CertSpec, Desired}

-- The calls that write in a transaction.
pub data Op : Type 0 where
  create_backend : BackendSpec → Op
  delete_backend : Str → Op
  create_server : Str → Server → Op
  replace_server : Str → Server → Op
  delete_server : Str → Str → Op

pub record Dataplane : Type 1 where
  pub Lb : Type 0
  pub info : M Lb (Unit {0})
  pub storage_name : Str → Str
  pub upsert_cert : Str → Str → M Lb (Unit {0})
  -- Whether the file changed.
  pub crt_list_sync : Str → Str → M Lb Bool
  pub general_sync : Str → Str → M Lb Bool
  pub reload : M Lb (Unit {0})
  pub backends : M Lb (List Str)
  pub servers : Str → M Lb (List Server)
  pub begin_tx : M Lb Str
  pub write : Str → Op → M Lb (Unit {0})
  pub commit_tx : Str → M Lb (Unit {0})
  pub abort_tx : Str → Lb → Lb
  pub sync_map : Str → List MapEntry → M Lb (Unit {0})
  pub visit : List Str → List Str

-- The certificates that were pushed to a load balancer: domain and hash.
abbrev pub Pushed : Type 0
Pushed = List (Str × Str)

hash_at : Str → Pushed → Str
hash_at k [] = []
hash_at k ((j, h) ∷ m) = if str_eq j k then h else hash_at k m

-- Servers by name, the later of two with one name.
unfoldable pub find_server : Str → List Server → Option Server
find_server k [] = none
find_server k (s ∷ ss) = elim (find_server k ss) [
  | some t ↦ some t
  | none ↦ if str_eq s.name k then some s else none
]

pub drop_server : Str → List Server → List Server
drop_server k [] = []
drop_server k (s ∷ ss) = let rest = drop_server k ss in if str_eq s.name k then rest else s ∷ rest

abbrev weight_differs : Option ℕ → Option ℕ → Bool
weight_differs old none = false
weight_differs none (some w) = true
weight_differs (some v) (some w) = not (v == w)

-- The test for ReplaceServer.
abbrev pub differs : Server → Server → Bool
differs old s =
    (not (str_eq old.address s.address) || not (old.port == s.port))
    || weight_differs old.weight s.weight

abbrev pub server_op : Str → Server → Option Server → List Op → List Op
server_op backend s none rest = create_server backend s ∷ rest
server_op backend s (some old) rest =
    if differs old s then replace_server backend s ∷ rest else rest

abbrev pub delete_ops : Str → List Str → List Op
delete_ops backend = map (delete_server backend)

abbrev pub names_of : List Server → List Str
names_of = map λ s. s.name

-- The writes that bring the servers of a backend from the second list to the first.
pub server_ops : (List Str → List Str) → Str → List Server → List Server → List Op
unfolding find_server drop_server
server_ops visit backend [] cur = delete_ops backend (visit (names_of cur))
server_ops visit backend (s ∷ ss) cur =
    server_op backend s (find_server s.name cur)
      (server_ops visit backend ss (drop_server s.name cur))

abbrev pub find_spec : Str → List BackendSpec → Option BackendSpec
find_spec k [] = none
find_spec k (b ∷ bs) = elim (find_spec k bs) [
  | some c ↦ some c
  | none ↦ if str_eq b.name k then some b else none
]

unfoldable pub listed : Str → List Str → Bool
listed k [] = false
listed k (j ∷ js) = str_eq j k || listed k js

has_double_underscore : Str → Bool
unfolding has_prefix
has_double_underscore [] = false
has_double_underscore (c ∷ s) = has_prefix (codes "__") (c ∷ s) || has_double_underscore s

-- The existing backends that are the program's, each once.
own_backends : List Str → List Str
unfolding has_double_underscore has_prefix listed
own_backends [] = []
own_backends (b ∷ bs) =
    let rest = own_backends bs in
    if (has_prefix (codes "bk_") b && has_double_underscore b) && not (listed b rest)
    then b ∷ rest
    else rest

spec_names : List BackendSpec → List Str
unfolding listed
spec_names [] = []
spec_names (b ∷ bs) = let rest = spec_names bs in if listed b.name rest then rest else b.name ∷ rest

abbrev deleted_ops : Option BackendSpec → Str → List Op
deleted_ops none name = delete_backend name ∷ []
deleted_ops (some b) name = []

abbrev some_ops : List Op → Bool
some_ops [] = false
some_ops (o ∷ os) = true

-- The measured mode: open or queue, with two thresholds; `reached` is how many load balancers gave
-- their number of sessions.
abbrev pub state_queue : Str
state_queue = codes "queue"

abbrev pub state_open : Str
state_open = codes "open"

pub next_state : Str → ℕ → ℕ → ℕ → Str
next_state eff on off total =
    if not (str_eq eff state_queue) && (ltb 0 on && ltb on total)
    then state_queue
    else if str_eq eff state_queue && ltb total off
    then state_open
    else eff

abbrev reading : ℕ × ℕ → Option ℕ → ℕ × ℕ
reading (total, reached) none = (total, reached)
reading (total, reached) (some n) = (total + n, reached + 1)

sessions : ℕ × ℕ → List (Option ℕ) → ℕ × ℕ
sessions acc [] = acc
sessions acc (r ∷ rs) = sessions (reading acc r) rs

-- The new state of a room, where it changes.
unfoldable auto_switch : Str → ℕ → ℕ → List (Option ℕ) → Option Str
unfolding sessions next_state
auto_switch eff on off readings =
    let (total, reached) = sessions (0, 0) readings in
    let next = next_state eff on off total in
    if reached == 0 || str_eq next eff then none else some next

module _ (D : Dataplane) where
  open D use {
    Lb, info, storage_name, upsert_cert, crt_list_sync, general_sync, reload, backends, servers,
    begin_tx, write, commit_tx, abort_tx, sync_map, visit,
  }

  -- Whether anything was written.
  run_ops : Str → List Op → M Lb Bool
  run_ops tx [] = pure false
  run_ops tx (o ∷ os) = do _ ← write tx o; _ ← run_ops tx os; pure true

  delete_backends : Str → List BackendSpec → List Str → M Lb Bool
  unfolding run_ops
  delete_backends tx want [] = pure false
  delete_backends tx want (name ∷ names) = do
    here ← run_ops tx (deleted_ops (find_spec name want) name)
    rest ← delete_backends tx want names
    pure (here || rest)

  -- A new backend with its servers, or the servers of one that exists.
  push_backend : Str → List Str → Str → Option BackendSpec → M Lb Bool
  unfolding run_ops server_ops
  push_backend tx have name none = pure false
  push_backend tx have name (some spec) =
      if listed name have
      then (servers name >>= λ cur. run_ops tx (server_ops visit name spec.servers cur))
      else run_ops tx (create_backend spec ∷ map (create_server name) spec.servers)

  push_backends : Str → List BackendSpec → List Str → List Str → M Lb Bool
  unfolding push_backend
  push_backends tx want have [] = pure false
  push_backends tx want have (name ∷ names) = do
    here ← push_backend tx have name (find_spec name want)
    rest ← push_backends tx want have names
    pure (here || rest)

  -- Every error inside the transaction aborts it.
  abbrev pub or_abort : {A : Type 0} → Str → M Lb A → M Lb A
  or_abort tx m lb =
      let (r, lb') = m lb in elim r [ none ↦ (none, abort_tx tx lb') | some a ↦ (some a, lb') ]

  finish_tx : Str → Bool → M Lb (Unit {0})
  finish_tx tx true = commit_tx tx
  finish_tx tx false = λ lb. (some tt, abort_tx tx lb)

  -- The second step of pushEdge. Only backends that bear the program's names are touched.
  sync_backends : List BackendSpec → M Lb (Unit {0})
  unfolding delete_backends push_backends finish_tx own_backends spec_names
  sync_backends want = do
    existing ← backends
    tx ← begin_tx
    changed ← or_abort tx (
        delete_backends tx want (visit (own_backends existing)) >>= λ a.
        push_backends tx want (own_backends existing) (visit (spec_names want)) >>= λ b.
        pure (a || b))
    finish_tx tx changed

  -- The three maps, each replaced as a whole.
  sync_maps : Desired → M Lb (Unit {0})
  sync_maps d = do
    _ ← sync_map (codes "backends.map") d.backend
    _ ← sync_map (codes "rooms.map") d.rooms
    sync_map (codes "states.map") d.states

  abbrev ssl_dir : Str
  ssl_dir = codes "/etc/haproxy/ssl"

  abbrev hash_put : Str → Str → Pushed → Pushed
  hash_put k h [] = (k, h) ∷ []
  hash_put k h ((j, g) ∷ m) = if str_eq j k then (k, h) ∷ m else (j, g) ∷ hash_put k h m

  -- The certificates whose hash is new are uploaded; what was uploaded before an error stays noted.
  push_certs : List CertSpec → Pushed → Lb → Option (Unit {0}) × Pushed × Lb
  unfolding hash_at
  push_certs [] p lb = (some tt, p, lb)
  push_certs (c ∷ cs) p lb =
      let skipped = push_certs cs p lb in
      let (done, lb') = upsert_cert (storage_name c.fqdn) c.pem lb in
      let noted = push_certs cs (hash_put c.fqdn c.hash p) lb' in
      if str_eq (hash_at c.fqdn p) c.hash
      then skipped
      else elim done [ none ↦ (none, p, lb') | some u ↦ noted ]

  cert_line : CertSpec → Str
  cert_line c = ssl_dir ++ (b'/' ∷ (storage_name c.fqdn ++ b' ' ∷ c.fqdn))

  abbrev is_listed : Bool → Bool → Bool
  is_listed true is_wait = is_wait
  is_listed false is_wait = not is_wait

  -- The lines of the waiting room's host, or those of all the others.
  cert_lines : Bool → Str → List CertSpec → List Str
  unfolding cert_line
  cert_lines waiting wait_host [] = []
  cert_lines waiting wait_host (c ∷ cs) =
      let rest = cert_lines waiting wait_host cs in
      if is_listed waiting (str_eq c.fqdn wait_host) then cert_line c ∷ rest else rest

  crt_list : Bool → Str → List CertSpec → Str
  unfolding cert_lines join
  crt_list waiting wait_host cs =
      join 10 (cert_lines waiting wait_host cs ++ (ssl_dir ++ codes "/bootstrap.pem") ∷ [])
      ++ 10 ∷ []

  sync_key : Str → Str → M Lb Bool
  sync_key name [] = pure false
  sync_key name (c ∷ pem) = general_sync name (c ∷ pem)

  reload_if : Bool → M Lb (Unit {0})
  reload_if true = reload
  reload_if false = pure tt

  -- The rest of the push, once the certificates are there.
  push_config : Str → Desired → M Lb (Unit {0})
  unfolding crt_list sync_key reload_if sync_backends sync_maps
  push_config wait_host d = do
    _ ← crt_list_sync (codes "app.crt-list") (crt_list false wait_host d.certs)
    _ ← crt_list_sync (codes "wait.crt-list") (crt_list true wait_host d.certs)
    current ← sync_key (codes "pass.pub") d.pass_pub
    previous ← sync_key (codes "pass-prev.pub") d.pass_prev_pub
    reload_if (current || previous)
    sync_backends d.backends
    sync_maps d

  -- pushEdge: the answer, the certificates that are noted, and the load balancer.
  unfoldable push_edge : Str → Desired → Pushed → Lb → Option (Unit {0}) × Pushed × Lb
  unfolding push_certs push_config
  push_edge wait_host d p lb =
      let (reached, lb1) = info lb in
      let (done, p', lb2) = push_certs d.certs p lb1 in
      let (answer, lb3) = push_config wait_host d lb2 in
      elim reached [
        | none ↦ (none, p, lb1)
        | some u ↦ elim done [ none ↦ (none, p', lb2) | some v ↦ (answer, p', lb3) ]
      ]
