-- ===== src/Dataplane/Files.antt =====
-- The certificates, the lists of certificates, the general files, the reload and the statistics of the
-- client: control/internal/dataplane/client.go.
use flyc.Base.{
  ℕ, Bool, true, false, ◌&&◌, List, [], ◌∷◌, ◌++◌, Option, none, some, leb, ◌==◌, if◌then◌else◌,
  Str, codes, str_eq, trim_space,
}
use flyc.Dataplane.{Call, ◌>>=◌, pure, total_sessions}
use flyc.Dataplane.Requests.{
  no_body, text, file_upload, StoredCert, StatsObject, no_answer, api_error, bad_json, Reply, ok,
  failed, is_status, Http, Json, Client,
}
use flyc.Dataplane.Operations.{request, do_request, get_json, begin_tx, commit_tx}

module _ (H : Http) (J : Json) (c : Client) where
  open H use {Net, send}

  abbrev storage : Str
  storage = codes "/services/haproxy/storage/"

  abbrev certs_path : Str
  certs_path = storage ++ codes "ssl_certificates"

  unfoldable stored_certs : Call Net (List StoredCert)
  unfolding get_json
  stored_certs = get_json H J c [] J.certs certs_path []

  -- Whether the certificate is new.
  unfoldable upsert_cert : Str → Str → Call Net Bool
  unfolding do_request
  upsert_cert name pem n =
      let (r, n1) = do_request H J c (codes "PUT") (certs_path ++ (b'/' ∷ name)) [] (text pem) n in
      let (r', n2) = do_request H J c (codes "POST") certs_path [] (file_upload name pem) n1 in
      elim r [
        | ok received ↦ (ok false, n1)
        | failed e ↦
            if is_status e 404
            then (elim r' [ ok received ↦ ok true | failed e' ↦ failed e' ], n2)
            else (failed e, n1)
      ]

  abbrev crt_list_path : Str → Str
  crt_list_path name = storage ++ (codes "ssl_crt_lists/" ++ J.path_escape name)

  -- The text of a file, empty where there is none.
  abbrev text_of : Option (ℕ × Str) → Reply Str
  text_of none = failed no_answer
  text_of (some (status, received)) =
      if status == 404
      then ok []
      else if leb 300 status
      then failed (api_error status (trim_space received))
      else ok received

  crt_list_get : Str → Call Net Str
  crt_list_get name n =
      let (r, n') = send (request H J c (codes "GET") (crt_list_path name) [] no_body) n in
      (text_of r, n')

  -- Whether the file changed.
  unfoldable crt_list_sync : Str → Str → Call Net Bool
  unfolding crt_list_get do_request
  crt_list_sync name content = do
    cur ← crt_list_get name
    if str_eq (trim_space cur) (trim_space content)
        then pure false
        else do_request H J c (codes "PUT") (crt_list_path name) [] (text content) >>= λ _.
            pure true

  abbrev pub general : Str
  general = storage ++ codes "general"

  abbrev pub general_path : Str → Str
  general_path name = general ++ (b'/' ∷ J.path_escape name)

  -- What GeneralSync makes of its reading: an answer that is no error of transport.
  abbrev pub is_same : ℕ → Str → Str → Bool
  is_same status received content =
      status == 200 && str_eq (trim_space received) (trim_space content)

  abbrev pub sent : Reply Str → Reply Bool
  sent (ok received) = ok true
  sent (failed e) = failed e

  abbrev pub create_general : Str → Str → Call Net Str
  create_general name content =
      do_request H J c (codes "POST") general [] (file_upload name content)

  abbrev pub replace_general : Str → Str → Call Net Str
  replace_general name content =
      do_request H J c (codes "PUT") (general_path name) ((codes "skip_reload", codes "true") ∷ [])
        (file_upload name content)

  -- The file is created where there is none, and replaced without a reload whatever else the
  -- reading answers.
  abbrev pub sent_as : Bool → Bool → Str → Str → Call Net Bool
  sent_as true missing name content n = (ok false, n)
  sent_as false true name content n = let (r, n') = create_general name content n in (sent r, n')
  sent_as false false name content n = let (r, n') = replace_general name content n in (sent r, n')

  abbrev pub decided : Str → Str → Option (ℕ × Str) × Net → Reply Bool × Net
  decided name content (none, n) = (failed no_answer, n)
  decided name content (some (status, received), n) =
      sent_as (is_same status received content) (status == 404) name content n

  -- Whether the file changed.
  unfoldable pub general_sync : Str → Str → Call Net Bool
  general_sync name content n =
      decided name content (send (request H J c (codes "GET") (general_path name) [] no_body) n)

  -- An empty transaction.
  unfoldable reload : Call Net Str
  unfolding begin_tx commit_tx
  reload = do id ← begin_tx H J c; commit_tx H J c id

  abbrev or_bad : {A : Type 0} → Option A → Reply A
  or_bad none = failed bad_json
  or_bad (some a) = ok a

  -- The answer is one object, or a list of them.
  stats_of : Str → Reply (List StatsObject)
  stats_of [] = elim (J.stats_object []) [ none ↦ failed bad_json | some o ↦ ok (o ∷ []) ]
  stats_of (b ∷ raw) =
      if b == b'['
      then or_bad (J.stats_list (b ∷ raw))
      else elim (J.stats_object (b ∷ raw)) [ none ↦ failed bad_json | some o ↦ ok (o ∷ []) ]

  unfoldable backend_sessions : Str → Call Net ℕ
  unfolding get_json stats_of total_sessions
  backend_sessions backend = do
    raw ←
        get_json H J c [] J.raw (codes "/services/haproxy/stats/native")
          ((codes "type", codes "backend") ∷ (codes "name", backend) ∷ [])
    objects ← λ n. (stats_of raw, n)
    pure (total_sessions backend objects)
