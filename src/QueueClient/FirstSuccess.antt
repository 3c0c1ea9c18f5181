-- ===== src/QueueClient/FirstSuccess.antt =====
-- The hosts that PutRoom of control/internal/queueclient/queueclient.go calls.
use flyc.Base.{
  ℕ, ◌≡◌, ap, ◌∙◌, ◌≢◌, ◌⊎◌, inl, inr, List, [], ◌∷◌, ◌++◌, none, some, Str, trim_space, arith,
}
use flyc.Compile.{RoomConfig}
use flyc.QueueClient.{Http, Client, PutError, put_call, put_hosts, put_room}

module _ (H : Http) (c : Client) (id : Str) (cfg : RoomConfig) where
  -- The hosts of a list give no answer, or another than 200, from one state of the network to
  -- another.
  abbrev pub AllFail : List Str → H.Net → H.Net → Type 0
  AllFail [] n n' = n ≡ n'
  AllFail (h ∷ hs) n n' =
      (m : H.Net) × (((H.send (put_call H c id cfg h) n ≡ (none, m))
          ⊎ ((code : ℕ) × (text : Str) × (H.send (put_call H c id cfg h) n ≡ (some (code, text), m))
              × (code ≢ 200)))
        × AllFail hs m n')

  put_hosts_first :
      (fails rest : List Str) (h : Str) (last : PutError) (n n1 n2 : H.Net) (text : Str)
      → AllFail fails n n1
      → H.send (put_call H c id cfg h) n1 ≡ (some (200, text), n2)
      → put_hosts H c id cfg (fails ++ h ∷ rest) last n ≡ (none, n2)
  unfolding put_hosts
  put_hosts_first [] rest h last n n1 n2 text e s = ground (arith, e, s)
  put_hosts_first (f ∷ fails) rest h last n n1 n2 text (m, (inl lost, more)) s =
      ground (arith, lost, put_hosts_first fails rest h PutError.unreachable m n1 n2 text more s)
  put_hosts_first (f ∷ fails) rest h last n n1 n2 text (m, (inr (code, t, bad, ne), more)) s =
      ground (
        arith,
        bad,
        ne,
        put_hosts_first fails rest h (PutError.refused f code (trim_space t)) m n1 n2 text more s,
      )

  -- Where some host takes the configuration, and those in front of it do not, PutRoom succeeds and
  -- calls none of the hosts behind it.
  pub put_room_first :
      (fails rest : List Str) (h : Str) (n n1 n2 : H.Net) (text : Str)
      → c.hosts ≡ fails ++ h ∷ rest
      → AllFail fails n n1
      → H.send (put_call H c id cfg h) n1 ≡ (some (200, text), n2)
      → put_room H c id cfg n ≡ (none, n2)
  unfolding put_room
  put_room_first fails rest h n n1 n2 text e f s =
      ap (λ hs. put_hosts H c id cfg hs PutError.no_host n) e
      ∙ put_hosts_first fails rest h PutError.no_host n n1 n2 text f s
