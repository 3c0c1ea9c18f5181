-- ===== src/Jobs/Protocol.antt =====
-- The steps of control and of the runner (runner/run.py) on the table and the shared directory, in
-- any order, and what is reached by them.
use flyc.Base.{ℕ, ◌≡◌, ◌≢◌, Bool, true, false, Option, none, some, Str, ℤ}
use flyc.Jobs.{Request, World, Folder, put_folder, SubmitLuck, RefreshLuck, submit, refresh}

abbrev pub with_claim : Folder → Folder
with_claim f = record f { claim = true }

abbrev pub with_result : Str → Folder → Folder
with_result body f = record f { result = some body }

abbrev pub with_log : Str → Folder → Folder
with_log text f = record f { log = some text }

-- The runner takes a task that has a request, no result and no claim, writes its log, and gives a
-- result to a task that it took. Control's removal of a request succeeds.
pub data Step (parse : Str → Option (ℤ × Str)) (w v : World) : Type 0 where
  submits :
      (l : SubmitLuck) (id kind : Str) (req : Request) (by : Str) (now : ℕ)
      → v ≡ (submit l id kind req by now w).1
      → Step parse w v
  refreshes :
      (read_ok : Bool) (luck : Str → RefreshLuck) (now : ℕ)
      → ((id : Str) → (luck id).remove_request ≡ true)
      → v ≡ refresh parse read_ok luck now w
      → Step parse w v
  claims :
      (id : Str)
      → (w.folder id).request ≢ none
      → (w.folder id).result ≡ none
      → (w.folder id).claim ≡ false
      → v ≡ put_folder id (with_claim (w.folder id)) w
      → Step parse w v
  logs : (id text : Str) → v ≡ put_folder id (with_log text (w.folder id)) w → Step parse w v
  results :
      (id body : Str)
      → (w.folder id).claim ≡ true
      → v ≡ put_folder id (with_result body (w.folder id)) w
      → Step parse w v

pub data Reach (parse : Str → Option (ℤ × Str)) (s : World) : World → Type 0 where
  here : Reach parse s s
  next : {t u : World} → Reach parse s t → Step parse t u → Reach parse s u
