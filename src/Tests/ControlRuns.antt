-- ===== src/Tests/ControlRuns.antt =====
-- Runs of the theorems on the desired state and its push.
use flyc.Base.{ℕ, zero, suc, ◌≡◌, refl, inl, [], ◌∷◌, ◌++◌, Option, none, some, Str, codes, arith}
use flyc.Compile.{Server, RoomRow, RoomConfig, queue_config, backend_name}
use flyc.Compile.Names.{backend_name-injective, backend_name_collides}
use flyc.Reconcile.{server_ops, find_server, next_state, state_open}
use flyc.Reconcile.Servers.{Meets, after_ops, pushed, server_ops_reach}
use flyc.Keys.{Round}
use flyc.QueueClient.{Http, Client, put_room}
use flyc.QueueClient.FirstSuccess.{put_room_first}
use flyc.Reconcile.Auto.{next_state_settles}

backend_name-injective_example : (codes "acme" ≡ codes "acme") × (codes "web" ≡ codes "web")
backend_name-injective_example =
    backend_name-injective (codes "acme") (codes "web") (codes "acme") (codes "web")
      (refl, (refl, (refl, (refl, tt)))) (refl, (refl, (refl, (refl, tt))))
      (refl, (refl, (refl, tt))) (refl, (refl, (refl, (refl, tt))))
      (refl, (refl, (refl, (refl, tt)))) (refl, (refl, (refl, tt))) refl

backend_name_collides_example :
    backend_name (codes "a" ++ (codes "--" ++ codes "b")) (codes "c")
    ≡ backend_name (codes "a") (codes "b" ++ (codes "--" ++ codes "c"))
backend_name_collides_example = backend_name_collides (codes "a") (codes "b") (codes "c")

abbrev row : RoomRow
row = record {
  tenant = codes "acme";
  slug = codes "sale";
  title = codes "Sale";
  state = codes "queue";
  rate = 10_000;
  max_active = 100;
  wave_s = 30;
  pass_ttl_s = 1200;
  opens_at = none;
  fqdn = some (codes "shop.example");
  target = some (codes "acme", codes "web");
  theme = [];
  mode = codes "dns";
}

abbrev one : Server
one = record {
  name = codes "s1";
  address = codes "10.0.0.1";
  port = 80;
  weight = some 100;
  maxconn = none;
}

abbrev moved : Server
moved = record one { address = codes "10.0.0.9" }

server_ops_reach_example :
    let last =
      after_ops
        (server_ops (λ l. l) (codes "bk_a__web") (moved ∷ []) (one ∷ []))
        (codes "s1")
        (find_server (codes "s1") (one ∷ [])) in
    (last ≡ pushed (find_server (codes "s1") (moved ∷ [])) (find_server (codes "s1") (one ∷ [])))
    × Meets (find_server (codes "s1") (moved ∷ [])) last
unfolding find_server
server_ops_reach_example =
    server_ops_reach (λ l. l) (λ j ks. refl) (codes "bk_a__web") (codes "s1") (moved ∷ [])
      (one ∷ []) (refl, tt)

next_state_settles_example :
    next_state (next_state state_open 500 300 600) 500 300 600 ≡ next_state state_open 500 300 600
next_state_settles_example = next_state_settles state_open 500 300 600 (omega arith)

abbrev keyed : Round
keyed = record {
  client = record { kid = codes "k1"; priv_pem = codes "key"; pub_pem = codes "pub" };
  backoff = 2;
  wait = 60;
}

abbrev sale_row_config : RoomConfig
sale_row_config = queue_config row

-- The network counts its calls; the first of them gets no answer.
abbrev answer_at : ℕ → Option (ℕ × Str)
answer_at zero = none
answer_at (suc n) = some (200, [])

abbrev lossy : Http
lossy = record { Net = ℕ; send = λ call n. (answer_at n, suc n) }

abbrev two_hosts : Client
two_hosts = record {
  token = codes "secret";
  hosts = codes "http://a" ∷ codes "http://b" ∷ codes "http://c" ∷ [];
}

put_room_first_example : put_room lossy two_hosts (codes "acme.sale") sale_row_config 0 ≡ (none, 2)
put_room_first_example =
    put_room_first lossy two_hosts (codes "acme.sale") sale_row_config (codes "http://a" ∷ [])
      (codes "http://c" ∷ []) (codes "http://b") 0 1 2 [] refl (1, (inl refl, refl)) refl
