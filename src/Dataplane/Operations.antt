-- ===== src/Dataplane/Operations.antt =====
-- The methods of the client: control/internal/dataplane/client.go.
use flyc.Base.{
  ℕ, Bool, true, false, List, [], ◌∷◌, ◌++◌, Option, none, some, leb, if◌then◌else◌, Str, codes,
  str_eq, trim_space, format_int,
}
use flyc.Compile.{MapEntry}
use flyc.Dataplane.{
  Call, ◌>>=◌, pure, let_through, tolerate, decoded, has_key, to_map, value_of, has_duplicate,
}
use flyc.Dataplane.Requests.{
  Body, no_body, json_entry, json_value, json_backend, json_server, Request, Backend, Server,
  no_answer, api_error, Reply, ok, failed, Http, Json, Client,
}

module _ (H : Http) (J : Json) (c : Client) where
  open H use {Net, send}

  abbrev Query : Type 0
  Query = List (Str × Str)

  abbrev pub runtime_maps : Str
  runtime_maps = codes "/services/haproxy/runtime/maps/"

  abbrev configuration : Str
  configuration = codes "/services/haproxy/configuration/"

  abbrev storage : Str
  storage = codes "/services/haproxy/storage/"

  abbrev transactions : Str
  transactions = codes "/services/haproxy/transactions"

  abbrev pub request : Str → Str → Query → Body → Request
  request method path q body = record {
    method = method;
    url = c.base ++ (codes "/v3" ++ path);
    query = q;
    user = c.user;
    pass = c.pass;
    body = body;
  }

  -- What an answer stands for: an error from 300 on.
  abbrev pub answer : Option (ℕ × Str) → Reply Str
  answer none = failed no_answer
  answer (some (status, received)) =
      if leb 300 status then failed (api_error status (trim_space received)) else ok received

  -- do without a place for the answer; upload is do with a form.
  unfoldable pub do_request : Str → Str → Query → Body → Call Net Str
  do_request method path q body n =
      let (r, n') = send (request method path q body) n in (answer r, n')

  -- do with a place for the answer.
  unfoldable pub get_json : {A : Type 0} → A → (Str → Option A) → Str → Query → Call Net A
  unfolding do_request
  get_json zero decode path q n =
      let (r, n') = do_request (codes "GET") path q no_body n in
      elim r [ failed e ↦ (failed e, n') | ok received ↦ (decoded zero decode received, n') ]

  unfoldable info : Call Net Str
  unfolding get_json
  info = get_json [] J.info (codes "/info") []

  version : Call Net ℕ
  unfolding get_json
  version = get_json 0 J.version (configuration ++ codes "version") []

  -- The identifier of a new transaction on the present version.
  unfoldable pub begin_tx : Call Net Str
  unfolding version do_request
  begin_tx = do
    v ← version
    received ← do_request (codes "POST") transactions ((codes "version", format_int v) ∷ []) no_body
    λ n. (decoded [] J.transaction received, n)

  unfoldable pub commit_tx : Str → Call Net Str
  unfolding do_request
  commit_tx id = do_request (codes "PUT") (transactions ++ (b'/' ∷ id)) [] no_body

  -- Its error is dropped.
  unfoldable abort_tx : Str → Net → Net
  unfolding do_request
  abort_tx id n = (do_request (codes "DELETE") (transactions ++ (b'/' ∷ id)) [] no_body n).1

  abbrev tx : Str → Query
  tx id = (codes "transaction_id", id) ∷ []

  abbrev backends_path : Str
  backends_path = configuration ++ codes "backends"

  abbrev backend_path : Str → Str
  backend_path name = backends_path ++ (b'/' ∷ name)

  abbrev servers_path : Str → Str
  servers_path backend = backend_path backend ++ codes "/servers"

  unfoldable backends : Call Net (List Backend)
  unfolding get_json
  backends = get_json [] J.backends backends_path []

  unfoldable create_backend : Str → Backend → Call Net Str
  unfolding do_request
  create_backend id b = do_request (codes "POST") backends_path (tx id) (json_backend b)

  unfoldable replace_backend : Str → Backend → Call Net Str
  unfolding do_request
  replace_backend id b = do_request (codes "PUT") (backend_path b.name) (tx id) (json_backend b)

  unfoldable delete_backend : Str → Str → Call Net Str
  unfolding do_request
  delete_backend id name = do_request (codes "DELETE") (backend_path name) (tx id) no_body

  unfoldable servers : Str → Call Net (List Server)
  unfolding get_json
  servers backend = get_json [] J.servers (servers_path backend) []

  unfoldable pub create_server : Str → Str → Server → Call Net Str
  unfolding do_request
  create_server id backend s =
      do_request (codes "POST") (servers_path backend) (tx id) (json_server s)

  unfoldable pub replace_server : Str → Str → Server → Call Net Str
  unfolding do_request
  replace_server id backend s =
      do_request (codes "PUT") (servers_path backend ++ (b'/' ∷ s.name)) (tx id) (json_server s)

  unfoldable pub delete_server : Str → Str → Str → Call Net Str
  unfolding do_request
  delete_server id backend name =
      do_request (codes "DELETE") (servers_path backend ++ (b'/' ∷ name)) (tx id) no_body

  abbrev pub force_sync : Query
  force_sync = (codes "force_sync", codes "true") ∷ []

  abbrev pub entries_path : Str → Str
  entries_path name = runtime_maps ++ (name ++ codes "/entries")

  abbrev pub entry_path : Str → Str → Str
  entry_path name k = entries_path name ++ (b'/' ∷ J.path_escape k)

  unfoldable pub map_entries : Str → Call Net (List MapEntry)
  unfolding get_json
  map_entries name = get_json [] J.entries (entries_path name) []

  unfoldable pub clear_map : Str → Call Net Str
  unfolding do_request
  clear_map name =
      do_request (codes "DELETE") (runtime_maps ++ name)
        ((codes "force_delete", codes "true") ∷ force_sync) no_body

  unfoldable pub add_entry : Str → MapEntry → Call Net Str
  unfolding do_request
  add_entry name e = do_request (codes "POST") (entries_path name) force_sync (json_entry e)

  unfoldable pub set_entry : Str → MapEntry → Call Net Str
  unfolding do_request
  set_entry name e =
      do_request (codes "PUT") (entry_path name e.key) force_sync (json_value e.value)

  unfoldable pub delete_entry : Str → Str → Call Net Str
  unfolding do_request
  delete_entry name k = do_request (codes "DELETE") (entry_path name k) force_sync no_body

  -- An entry that is wanted: added, changed, or as it should be.
  abbrev pub put_entry : Str → MapEntry → Option Str → Call Net Str
  put_entry name e none = tolerate 409 (add_entry name e)
  put_entry name e (some value) = if str_eq value e.value then pure [] else set_entry name e

  unfoldable pub put_entries : Str → List MapEntry → List MapEntry → Call Net Str
  unfolding value_of
  put_entries name cur [] = pure []
  put_entries name cur (e ∷ es) = do
    _ ← put_entry name e (value_of e.key cur)
    put_entries name cur es

  -- A present entry: deleted where it is not wanted.
  abbrev pub drop_entry : Str → Str → Bool → Call Net Str
  drop_entry name k true = pure []
  drop_entry name k false = tolerate 404 (delete_entry name k)

  unfoldable pub drop_entries : Str → List MapEntry → List MapEntry → Call Net Str
  unfolding has_key
  drop_entries name want [] = pure []
  drop_entries name want (e ∷ es) = do
    _ ← drop_entry name e.key (has_key e.key want)
    drop_entries name want es

  -- A map with two entries of one key is emptied first.
  abbrev pub cleared : Str → List MapEntry → Bool → Call Net (List MapEntry)
  cleared name current true = tolerate 404 (clear_map name) >>= λ _. pure []
  cleared name current false = pure (to_map current)

  -- A map that is not there is empty.
  abbrev pub or_empty : Call Net (List MapEntry) → Call Net (List MapEntry)
  or_empty m n = let_through 404 [] (m n)

  unfoldable pub sync_map : Str → List MapEntry → Call Net Str
  unfolding map_entries has_duplicate to_map put_entries drop_entries
  sync_map name desired = do
    current ← or_empty (map_entries name)
    cur ← cleared name current (has_duplicate current)
    _ ← put_entries name cur (J.visit (to_map desired))
    drop_entries name (to_map desired) (J.visit cur)
