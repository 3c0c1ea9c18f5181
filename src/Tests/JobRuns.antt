-- ===== src/Tests/JobRuns.antt =====
-- Runs of the tasks.
use flyc.Base.{◌≡◌, refl, true, false, [], Option, none, some, Str, codes, str_eq, ℤ, pos, arith}
use flyc.Jobs.{
  Request, Job, Folder, World, SubmitLuck, RefreshLuck, new_job, submit, refresh, put_folder,
  mark_running, mark_finished,
}
use flyc.Jobs.OneAtATime.{IsOrderly, row_of}
use flyc.Jobs.Protocol.{submits, refreshes, claims, results, here, next, with_claim, with_result}
use flyc.Jobs.Invariant.{Means, Reach-IsOrderly, Reach-keeps, refresh-finishes}
use flyc.Jobs.Outcome.{Ends, submit-Ends}

abbrev parse_zero : Str → Option (ℤ × Str)
parse_zero body = some (pos 0, [])

abbrev deploy : Request
deploy = record {
  kind = codes "playbook";
  playbook = codes "site.yml";
  argv = [];
  limit = [];
  tags = [];
  check = false;
  extra_vars = [];
  inventory = [];
}

abbrev empty_folder : Folder
empty_folder = record { tmp = none; request = none; claim = false; log = none; result = none }

abbrev start : World
start = record { table = []; folder = λ k. empty_folder }

abbrev all_well : SubmitLuck
all_well = record {
  insert_ok = true;
  mkdir_ok = true;
  write_ok = true;
  rename_ok = true;
  delete_ok = true;
  read_ok = true;
}

abbrev clean : RefreshLuck
clean = record {
  mark_ok = true;
  finish_ok = true;
  remove_request = true;
  remove_claim = true;
  remove_result = true;
}

start-IsOrderly : IsOrderly start
start-IsOrderly = record { one = omega arith; distinct = tt; cleaned = λ id j r b. cc }

abbrev pending_world : World
pending_world = (submit all_well (codes "j1") (codes "playbook") deploy (codes "op") 7 start).1

submit-Ends_example :
    Ends all_well
      (codes "j1")
      (codes "playbook")
      deploy
      (codes "op")
      7
      start
      (submit all_well (codes "j1") (codes "playbook") deploy (codes "op") 7 start)
submit-Ends_example =
    submit-Ends all_well (codes "j1") (codes "playbook") deploy (codes "op") 7 start

-- A task is submitted, taken by the runner, gives its result and is finished.
abbrev taken_world : World
taken_world = put_folder (codes "j1") (with_claim (pending_world.folder (codes "j1"))) pending_world

abbrev result_world : World
result_world =
    put_folder (codes "j1") (with_result (codes "{}") (taken_world.folder (codes "j1"))) taken_world

abbrev last_world : World
last_world = refresh parse_zero true (λ id. clean) 9 result_world

Reach-IsOrderly_example : IsOrderly last_world
unfolding submit str_eq
Reach-IsOrderly_example =
    Reach-IsOrderly parse_zero start last_world
      (next
        (next
          (next
            (next here
              (submits all_well (codes "j1") (codes "playbook") deploy (codes "op") 7 refl))
            (claims (codes "j1") (λ e. cc) refl refl refl))
          (results (codes "j1") (codes "{}") refl refl))
        (refreshes true (λ id. clean) 9 (λ id. refl) refl))
      start-IsOrderly

abbrev j1 : Job
j1 = new_job (codes "j1") (codes "playbook") deploy (codes "op") 7

result_world-IsOrderly : IsOrderly result_world
unfolding submit str_eq
result_world-IsOrderly =
    Reach-IsOrderly parse_zero start result_world
      (next
        (next
          (next here (submits all_well (codes "j1") (codes "playbook") deploy (codes "op") 7 refl))
          (claims (codes "j1") (λ e. cc) refl refl refl))
        (results (codes "j1") (codes "{}") refl refl))
      start-IsOrderly

refresh-finishes_example :
    (i : Job) × (row_of (codes "j1") last_world.table ≡ some i)
    × Means (pos 0) i.status
    × (i.exit_code ≡ some (pos 0))
    × (i.finished_at ≡ some 9)
unfolding submit str_eq
refresh-finishes_example =
    refresh-finishes parse_zero (λ id. clean) 9 result_world result_world-IsOrderly (λ id. refl) j1
      (pos 0) [] refl refl refl refl

last_world-IsOrderly : IsOrderly last_world
last_world-IsOrderly =
    Reach-IsOrderly parse_zero result_world last_world
      (next here (refreshes true (λ id. clean) 9 (λ id. refl) refl)) result_world-IsOrderly

-- A second task behind the first.
Reach-keeps_example :
    row_of
      (codes "j1")
      (submit all_well (codes "j22") (codes "playbook") deploy (codes "op") 11 last_world).1.table
    ≡ some (mark_finished 9 (pos 0) [] (mark_running 9 j1))
unfolding submit refresh str_eq mark_finished
Reach-keeps_example =
    Reach-keeps parse_zero last_world
      (submit all_well (codes "j22") (codes "playbook") deploy (codes "op") 11 last_world).1
      (codes "j1") (mark_finished 9 (pos 0) [] (mark_running 9 j1))
      (next here (submits all_well (codes "j22") (codes "playbook") deploy (codes "op") 11 refl))
      last_world-IsOrderly refl refl
