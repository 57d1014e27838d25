-- ===== src/Examples/Pumping.antt =====
-- The theorems on runs and pumps, at the workspace's three jobs.
use native.Mathlib.Decide.{ℕ_discrete}
use coordinate.Base.{
  ◌+◌, ◌≤◌, ◌≡◌, Bool, String, refl, ok, err, some, none, true, false, [], string_dec_eq,
  nat_dec_eq, string_discrete, arith,
}
use coordinate.Json.{Json}
use coordinate.Table.{find?, length, count_where}
use coordinate.Schema.{Db, Job}
use coordinate.Events.Log.{append_event}
use coordinate.Jobs.Repository.{
  is_job, is_running, mark_job_completed, get_job, mark_job_started, list_pending_jobs, sorted,
  place,
}
use coordinate.Jobs.Control.{job_payload}
use coordinate.Jobs.Run.Response.{Reading, absent, read_agent_response, merge}
use coordinate.Jobs.Run.Paths.{Files}
use coordinate.Jobs.Run.Once.{
  RunInput, RunJobResult, Prepared, exited, run_job, prepare, start, conclude, finish, announce,
  with_response,
}
use coordinate.Jobs.Run.Pump.{PumpJobsResult, pump_jobs, pump_loop, counted}
use coordinate.Jobs.Run.Verdict.{IsSuccess, conclude_cancelled, conclude-IsSuccess}
use coordinate.Jobs.Run.Counts.{pump_jobs-counts}
use coordinate.Jobs.Errors.{J}
use coordinate.Examples.World.{world, busy, dropped}
use coordinate.Examples.Running.{resolver, one_busy}

abbrev files : Files
files = record {
  path_text = λ p. p;
  expanduser = λ p. p;
  is_absolute = λ p. true;
  join = λ a b. b;
  exists = λ p. true;
  is_dir = λ p. false;
}

abbrev str_of : Json → String
str_of _ = "text"

-- The process exits with 0 and leaves no answer.
abbrev run_input : (Db → Db) → RunInput
run_input others = record {
  files = files;
  start_now = 10;
  started_event_id = "s1";
  meanwhile = others;
  process = exited 0;
  result_file = absent;
  end_now = 20;
  final_event_id = "s2";
}

abbrev prepared : Job → Prepared
prepared j = record {
  job = j;
  workspace = record { id = "w"; path = "/work"; harness_root = "/work" };
  runner = record {
    id = "runner";
    runner_type = "generic_subprocess";
    command = "run";
    working_directory_strategy = "workspace";
  };
  log_path = "log";
  result_path = "result";
}

one_dropped : count_where (is_job "dropped") world.jobs ≤ 1
unfolding string_discrete
one_dropped = omega arith

conclude_cancelled_example :
    conclude resolver str_of world (run_input (λ db. db)) (prepared dropped) "s1"
    ≡ (ok (record { job = dropped; log_path = "log" }), world)
unfolding string_discrete
conclude_cancelled_example =
    conclude_cancelled resolver str_of world (run_input (λ db. db)) (prepared dropped) "s1" dropped
      one_dropped refl refl

abbrev concluded : Db
concluded = (conclude resolver str_of world (run_input (λ db. db)) (prepared busy) "s1").1

abbrev finished_or : J Job → Job
finished_or (ok j) = j
finished_or (err e) = busy

abbrev finished : RunJobResult
finished = record { job = finished_or (get_job concluded "busy"); log_path = "log" }

concludes :
    conclude resolver str_of world (run_input (λ db. db)) (prepared busy) "s1"
    ≡ (ok finished, concluded)
unfolding string_discrete ℕ_discrete conclude finish announce with_response merge
    read_agent_response mark_job_completed get_job append_event
concludes = refl

conclude-IsSuccess_example :
    (reading : Reading) × (read_agent_response str_of "result" absent ≡ ok reading)
    × IsSuccess reading (exited 0)
    × ((j : Job) × (find? (is_job "busy") world.jobs ≡ some j) × (is_running j.status ≡ true))
unfolding string_discrete ℕ_discrete conclude finish announce with_response merge
    read_agent_response mark_job_completed get_job append_event
conclude-IsSuccess_example =
    conclude-IsSuccess resolver str_of world (run_input (λ db. db)) (prepared busy) "s1" finished
      concluded one_busy concludes refl

abbrev by_id : String → String → Bool
by_id a b = true

abbrev pumped_or : J PumpJobsResult → PumpJobsResult
pumped_or (ok s) = s
pumped_or (err e) = record {
  processed = 0;
  done_count = 0;
  failed_count = 0;
  errors = 0;
  jobs = [];
  error_details = [];
}

abbrev a_pump : J PumpJobsResult × Db
a_pump = pump_jobs resolver str_of (λ j. run_input (λ db. db)) by_id world none 10

abbrev pumped : PumpJobsResult
pumped = pumped_or a_pump.0

pumps :
    pump_jobs resolver str_of (λ j. run_input (λ db. db)) by_id world none 10
    ≡ (ok pumped, a_pump.1)
unfolding string_discrete ℕ_discrete pump_jobs pump_loop counted list_pending_jobs sorted place
    run_job prepare start conclude finish announce with_response merge read_agent_response
    mark_job_started mark_job_completed get_job job_payload append_event
pumps = refl

pumps_one : pumped.done_count ≡ 1
unfolding string_discrete ℕ_discrete pump_jobs pump_loop counted list_pending_jobs sorted place
    run_job prepare start conclude finish announce with_response merge read_agent_response
    mark_job_started mark_job_completed get_job job_payload append_event
pumps_one = refl

pump_jobs-counts_example :
    (pumped.processed ≤ 10)
    × (length pumped.jobs + pumped.errors ≡ pumped.processed)
    × (length pumped.error_details ≡ pumped.errors)
    × (pumped.done_count + pumped.failed_count ≤ length pumped.jobs)
pump_jobs-counts_example =
    pump_jobs-counts resolver str_of (λ j. run_input (λ db. db)) by_id world none 10 pumped a_pump.1
      pumps
