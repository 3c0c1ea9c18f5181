-- ===== src/Jobs.antt =====
-- control/internal/jobs/jobs.go: the tasks that control hands to the runner, and the directory that
-- the two share. A statement of SQL and a call on the file system succeed or fail as an argument
-- says; a statement that fails changes nothing.
pub mod Protocol
pub mod OneAtATime
pub mod Refresh
pub mod Outcome
pub mod Invariant
use flyc.Base.{
  ℕ, ◌+◌, Bool, true, false, ◌&&◌, ◌||◌, not, List, [], ◌∷◌, ◌++◌, map, Option, none, some, ltb,
  ◌==◌, if◌then◌else◌, take, Str, str_eq, ℤ, pos, negsuc,
}

pub data JobStatus : Type 0 where
  pending running succeeded failed interrupted : JobStatus

-- The free variables stand as their JSON text.
pub record Request : Type 0 where
  pub kind : Str
  pub playbook : Str
  pub argv : List Str
  pub limit : Str
  pub tags : Str
  pub check : Bool
  pub extra_vars : Str
  pub inventory : Str

pub record Job : Type 0 where
  pub id : Str
  pub kind : Str
  pub status : JobStatus
  pub exit_code : Option ℤ
  pub detail : Str
  pub created_by : Str
  pub created_at : ℕ
  pub started_at : Option ℕ
  pub finished_at : Option ℕ
  pub request : Request

abbrev pub is_done : JobStatus → Bool
is_done pending = false
is_done running = false
is_done _ = true

unfoldable done : Job → Bool
done j = is_done j.status

-- The files of one task: `<id>.request.tmp`, `.request.json`, `.claim`, `.log` and `.result.json`.
pub record Folder : Type 0 where
  pub tmp : Option Request
  pub request : Option Request
  pub claim : Bool
  pub log : Option Str
  pub result : Option Str

-- The table, and the shared directory by task.
pub record World : Type 0 where
  pub table : List Job
  pub folder : Str → Folder

abbrev pub put_folder : Str → Folder → World → World
put_folder id f w = record w { folder = λ k. if str_eq k id then f else w.folder k }

-- The rows that the partial unique index jobs_one_at_a_time counts.
pub any_active : List Job → Bool
any_active [] = false
any_active (j ∷ js) = not (is_done j.status) || any_active js

-- The primary key: a violation has the code of the index too.
pub known : Str → List Job → Bool
known id [] = false
known id (j ∷ js) = str_eq j.id id || known id js

-- `update jobs set .. where id=$1`.
pub update : Str → (Job → Job) → List Job → List Job
update id f [] = []
update id f (j ∷ js) = (if str_eq j.id id then f j else j) ∷ update id f js

pub delete : Str → List Job → List Job
delete id [] = []
delete id (j ∷ js) = let rest = delete id js in if str_eq j.id id then rest else j ∷ rest

-- `select .. where id=$1`, whose request is shown without its inventory.
abbrev pub shown : Job → Job
shown j = record j { request = record j.request { inventory = [] } }

pub find : Str → List Job → Option Job
find id [] = none
find id (j ∷ js) = if str_eq j.id id then some (shown j) else find id js

pub data SubmitError : Type 0 where
  busy db_error not_deposited not_found : SubmitError

-- Which calls of a Submit succeed.
pub record SubmitLuck : Type 0 where
  pub insert_ok : Bool
  pub mkdir_ok : Bool
  pub write_ok : Bool
  pub rename_ok : Bool
  pub delete_ok : Bool
  pub read_ok : Bool

-- write: the request is written beside its name and moved there, so it is never half there.
pub write : SubmitLuck → Str → Request → Folder → Bool × Folder
write l id req f =
    if not (l.mkdir_ok && l.write_ok)
    then (false, f)
    else if l.rename_ok
    then (true, record f { tmp = none; request = some req })
    else (false, record f { tmp = some req })

-- `id` and `now` are what the database gives to the new row.
abbrev pub new_job : Str → Str → Request → Str → ℕ → Job
new_job id kind req by now = record {
  id = id;
  kind = kind;
  status = pending;
  exit_code = none;
  detail = [];
  created_by = by;
  created_at = now;
  started_at = none;
  finished_at = none;
  request = req;
}

pub data Submitted : Type 0 where
  accepted : Job → Submitted
  refused : SubmitError → Submitted

pub get : Bool → Str → List Job → Submitted
unfolding find
get read_ok id js =
    if read_ok
    then elim (find id js) [ none ↦ refused not_found | some j ↦ accepted j ]
    else refused db_error

-- The deposit, and the row that goes with it where the deposit fails.
deposit : SubmitLuck → Str → Request → World → Submitted × World
unfolding write get delete
deposit l id req w =
    let (written, f) = write l id req (w.folder id) in
    let w' = put_folder id f w in
    if written then (get l.read_ok id w'.table, w') else (
      refused not_deposited,
      if l.delete_ok then record w' { table = delete id w'.table } else w',
    )

unfoldable pub submit : SubmitLuck → Str → Str → Request → Str → ℕ → World → Submitted × World
unfolding deposit any_active known
submit l id kind req by now w =
    if not l.insert_ok
    then (refused db_error, w)
    else if any_active w.table || known id w.table
    then (refused busy, w)
    else deposit l id req (record w { table = new_job id kind req by now ∷ w.table })

-- List: the newest first, at most 200 of them and fifty where the limit is out of range.
list_limit : ℤ → ℕ
list_limit (negsuc n) = 50
list_limit (pos n) = if n == 0 || ltb 200 n then 50 else n

unfoldable list : ℤ → List Job → List Job
unfolding list_limit
list limit newest_first = map shown (take (list_limit limit) newest_first)

-- What refresh makes of an exit code.
pub status_of_code : ℤ → JobStatus
status_of_code (negsuc n) = failed
status_of_code (pos n) = if n == 75 then interrupted else if n == 0 then succeeded else failed

abbrev pub or_now : Option ℕ → ℕ → Option ℕ
or_now none now = some now
or_now (some t) now = some t

-- `status='running', started_at=coalesce(started_at, now())`
abbrev pub mark_running : ℕ → Job → Job
mark_running now j = record j { status = running; started_at = or_now j.started_at now }

unfoldable pub mark_finished : ℕ → ℤ → Str → Job → Job
unfolding status_of_code
mark_finished now rc detail j = record j {
  status = status_of_code rc;
  exit_code = some rc;
  detail = detail;
  started_at = or_now j.started_at now;
  finished_at = some now;
}

-- Which calls of a refresh succeed, for one task.
pub record RefreshLuck : Type 0 where
  pub mark_ok : Bool
  pub finish_ok : Bool
  pub remove_request : Bool
  pub remove_claim : Bool
  pub remove_result : Bool

-- The files of a task that is finished, but for its log.
pub cleanup : RefreshLuck → Folder → Folder
cleanup l f = record f {
  request = if l.remove_request then none else f.request;
  claim = if l.remove_claim then false else f.claim;
  result = if l.remove_result then none else f.result;
}

abbrev pub is_pending : JobStatus → Bool
is_pending pending = true
is_pending _ = false

abbrev pub or_null : Option Str → (Str → Option (ℤ × Str)) → Option (ℤ × Str)
or_null none parse = none
or_null (some body) parse = parse body

-- The JSON of a result is read by `parse`.
module _ (parse : Str → Option (ℤ × Str)) where
  pub claimed : RefreshLuck → ℕ → Job → World → World
  unfolding update
  claimed l now j w =
      if is_pending j.status && ((w.folder j.id).claim && l.mark_ok)
      then record w { table = update j.id (mark_running now) w.table }
      else w

  pub finished : RefreshLuck → ℕ → Job → Option (ℤ × Str) → World → World
  unfolding update cleanup mark_finished
  finished l now j none w = w
  finished l now j (some (rc, detail)) w =
      if l.finish_ok
      then put_folder j.id (cleanup l (w.folder j.id))
          (record w { table = update j.id (mark_finished now rc detail) w.table })
      else w

  -- One task that was active when refresh read the table.
  pub refresh_one : RefreshLuck → ℕ → Job → World → World
  unfolding claimed finished
  refresh_one l now j w =
      let w' = claimed l now j w in finished l now j (or_null (w'.folder j.id).result parse) w'

  pub refresh_all : (Str → RefreshLuck) → ℕ → List Job → World → World
  unfolding refresh_one
  refresh_all luck now [] w = w
  refresh_all luck now (j ∷ js) w =
      let w' = refresh_one (luck j.id) now j w in
      if is_done j.status then refresh_all luck now js w else refresh_all luck now js w'

  -- The rows that are read are those of the start; a query that fails ends the round.
  unfoldable pub refresh : Bool → (Str → RefreshLuck) → ℕ → World → World
  unfolding refresh_all
  refresh read_ok luck now w = if read_ok then refresh_all luck now w.table w else w
