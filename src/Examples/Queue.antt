-- ===== src/Examples/Queue.antt =====
-- The scheduler of scheduler/service.py on one or two jobs.
use ksec.Prelude.{
  is_missing, String, ◌≡◌, refl, true, false, none, some, List, [], ◌∷◌, ◌++◌, arith, ◌<◌, length,
  any, select, find?, update_where, get_elem?, set, take, cut, inl, inr,
}
use ksec.Prelude.Int.{pos}
use ksec.Prelude.Json.{Json, end}
use ksec.Prelude.Exec.{pure, returned, raised, ksec_error, value_error, blocked}
use ksec.Prelude.Dict.{get?, put, remove, string_eq}
use ksec.Prelude.Sort.{In, sort_by, insert_by, first_by}
use ksec.Prelude.Strings.{strip}
use ksec.Audit.{record_event}
use ksec.Jobs.{
  terminal, Job, JobState, queued, running, paused, cancelled, cancelling, failed, Spec, new_job,
  has_id, is_queued, write, get, mark_interrupted,
}
use ksec.Jobs
use ksec.Jobs.Recovery.{HasUniqueIds, interrupted, mark_interrupted_lem}
use ksec.Scheduler.{Adapter, Env, Phase, Process, Scheduler, with_lock, on_jobs, audit}
use ksec.Scheduler.Submit.{
  Readings, submit, recent, emergency_message, retry, retry_spec, rate_allowed, prune, rate_verdict,
  admit, note_times, user_exists,
}
use ksec.Scheduler.Submit.Effect.{IsNewJob, submit_returned}
use ksec.Scheduler.Submit.Retry.{IsRetryOf, retry_returned}
use ksec.Scheduler.Submit.Limits.{Tracks, submit-Tracks}
use ksec.Scheduler.Control.{
  pause, resume, cancel, pause_from, resume_from, cancel_from, cancel_running, flag_cancel,
  process_of, signal, get_job, set_job_state,
}
use ksec.Scheduler.Control.Moves.{job_at, MovesTo}
use ksec.Scheduler.Control.Cancel.{StepsAt, Request, perform, perform-StepsAt}
use ksec.Scheduler.Control.Branches.{
  pause_by_state, resume_by_state, cancel_by_state, resume-process_of,
}
use ksec.Scheduler.Stop.{
  emergency_stop, emergency_stop_clear, restart, cancel_each, cancel_step, attempt, persist_stop,
}
use ksec.Scheduler.Stop.Persistence.{emergency_stop-submit, emergency_stop_clear-restart}
use ksec.Scheduler.Stop.Emergency.{emergency_stop_blocks}
use ksec.Scheduler.Run.{
  Launch, Closing, Polled, begin_run, is_cancelled, prepare, built, launch, spawn, fail_job,
  option_of, end_run, close_run, complete_parsed,
}
use ksec.Scheduler.Run.Close.{
  flagged, verdict, map_returned, recorded, end_run_lem, cancelled_becomes_failed,
}
use ksec.Scheduler.Run.Start.{MayRun, begin_run-MayRun}
use ksec.Scheduler.Worker.{
  next_job, ranks_before, Minute, worker_round, reap, done_ids, forget_each, run_due_schedules,
  run_each, choose, start_thread,
}
use ksec.Scheduler.Worker.Room.{Fits, worker_round-Fits}
use ksec.Schedules.Store
use ksec.Scheduler.Worker.Pick.{next_job-some}

abbrev echo : Adapter
echo = record {
  build_command = λ target options. pure ("echo" ∷ target ∷ []);
  reads_stderr = false;
  parse_output = λ out. returned (Json.str out ∷ []);
}

abbrev env : Env
env = record {
  config = record {
    max_concurrent_jobs = 2;
    rate_limit_per_minute = 2;
    rate_limit_per_user = 0;
    default_timeout_seconds = 300;
  };
  audit_on = true;
  username = λ user_id. some "ada";
  adapter = λ capability tool. some echo;
  plugin_gate = λ capability. none;
}

abbrev scan : Spec
scan = record {
  capability = "port_scan";
  target = "lab.test";
  options = end;
  session_id = none;
  user_id = some 1;
  workspace = "RED_TEAM";
  workflow = "";
  priority = pos 0;
}

abbrev job_in : String → JobState → Job
job_in job_id state = record (new_job job_id 7 scan) { state = state }

abbrev scheduler : List Job → Scheduler
scheduler jobs = record {
  jobs = jobs;
  schedules = record { rows = []; next_id = 1 };
  system_state = some none;
  audit_log = [];
  emergency = false;
  submit_times = 1000 ∷ [];
  user_submit_times = [];
  rate_blocked = [];
  threads = [];
  procs = ("a", 0) ∷ [];
  cancel_flags = [];
  thread_heap = [];
  process_heap =
      record { command = "nmap" ∷ []; ended = false; stopped = true; killed = false } ∷ [];
  lock_held = false;
  wake = false;
  worker_alive = true;
}

abbrev readings : Readings
readings = record {
  checked = 2000;
  appended = 2001;
  user_appended = 2002;
  job_id = "b";
  created = 9;
}

abbrev one_running : Scheduler
one_running = scheduler (job_in "a" running ∷ [])

-- All that a run of these examples computes.
unfoldable program : Unit {0}
unfolding submit rate_allowed with_lock prune rate_verdict admit note_times on_jobs audit get? put
    remove find? any select update_where get_elem? set length take cut strip record_event
    Jobs.create Jobs.get Jobs.set_state Jobs.fail Jobs.complete Jobs.mark_interrupted Jobs.fail_each
    Jobs.list sort_by insert_by first_by next_job pause resume cancel pause_from resume_from
    cancel_from cancel_running flag_cancel process_of signal get_job set_job_state begin_run
    is_cancelled prepare built launch spawn fail_job option_of end_run close_run complete_parsed
    emergency_stop cancel_each cancel_step attempt persist_stop retry
program = tt

submitted : (submit env readings scan one_running).0 ≡ returned (new_job "b" 9 scan)
unfolding program
submitted = refl

within_window : Tracks (1000 ∷ []) 1500 one_running
within_window = record { same = λ t after. refl }

submit-Tracks_example :
    (length (recent 2000 (1000 ∷ [])) < 2)
    × Tracks (1000 ∷ 2001 ∷ []) 2000 (submit env readings scan one_running).1
submit-Tracks_example =
    submit-Tracks env readings scan one_running (1000 ∷ []) 1500 (new_job "b" 9 scan) refl
      within_window (omega arith) (λ e. cc) submitted

submit_returned_example :
    (one_running.emergency ≡ false)
    × IsNewJob readings scan (new_job "b" 9 scan)
    × (any (has_id "b") one_running.jobs ≡ false)
    × (is_missing (user_exists env) (some 1) ≡ false)
    × ((submit env readings scan one_running).1.jobs ≡ one_running.jobs ++ new_job "b" 9 scan ∷ [])
    × ((submit env readings scan one_running).1.submit_times ≡ recent 2000 (1000 ∷ []) ++ 2001 ∷ [])
    × ((submit env readings scan one_running).1.lock_held ≡ false)
submit_returned_example =
    submit_returned env readings scan one_running (new_job "b" 9 scan) refl submitted

at_a : job_at "a" one_running ≡ some (job_in "a" running)
unfolding program
at_a = refl

perform-StepsAt_example :
    StepsAt "a" (job_in "a" running) (perform (Request.cancel_it 5) "a" one_running).1
perform-StepsAt_example =
    perform-StepsAt (Request.cancel_it 5) "a" "a" one_running (job_in "a" running) refl at_a

cancel_by_state_example :
    MovesTo "a" (job_in "a" running) one_running.jobs cancelling [] (cancel "a" 5 one_running)
    × ((cancel "a" 5 one_running).1.cancel_flags ≡ put "a" true [])
cancel_by_state_example = cancel_by_state "a" 5 one_running (job_in "a" running) refl at_a

pause_by_state_example :
    MovesTo "a" (job_in "a" running) one_running.jobs paused [] (pause "a" one_running)
pause_by_state_example = pause_by_state "a" one_running (job_in "a" running) at_a

abbrev one_paused : Scheduler
one_paused = scheduler (job_in "a" paused ∷ job_in "c" queued ∷ [])

at_paused : job_at "a" one_paused ≡ some (job_in "a" paused)
unfolding program
at_paused = refl

resume_by_state_example :
    MovesTo "a" (job_in "a" paused) one_paused.jobs queued [] (resume "a" one_paused)
resume_by_state_example = resume_by_state "a" one_paused (job_in "a" paused) at_paused

abbrev nmap : Process
nmap = record { command = "nmap" ∷ []; ended = false; stopped = true; killed = false }

live_process : process_of "a" one_paused ≡ some (0, nmap)
unfolding program
live_process = refl

resume-process_of_example :
    ((resume "a" one_paused).1.jobs ≡ update_where (has_id "a") (write queued []) one_paused.jobs)
    × (process_of "a" (resume "a" one_paused).1 ≡ some (0, record nmap { stopped = false }))
resume-process_of_example =
    resume-process_of "a" one_paused (job_in "a" paused) 0 nmap at_paused refl live_process refl

next_is_c : next_job one_paused.jobs ≡ some (job_in "c" queued)
unfolding program
next_is_c = refl

next_job-some_example :
    In (job_in "c" queued) one_paused.jobs
    × (is_queued queued ≡ true)
    × (ranks_before (job_in "c" queued) (job_in "c" queued) ≡ false)
next_job-some_example =
    next_job-some one_paused.jobs (job_in "c" queued) (job_in "c" queued) next_is_c (inr (inl refl))
      refl

-- A worker that starts the queued job beside a thread that it keeps.
abbrev working : Scheduler
working = record one_paused {
  threads = ("a", 0) ∷ [];
  thread_heap = record { job_id = "a"; phase = Phase.polling 0 } ∷ [];
}

abbrev minute : Minute
minute = record {
  when = record { minute = 0; hour = 12; day = 31; month = 5; weekday = 7 };
  instant = 3000;
  readings = λ schedule_id. readings;
  marked = λ schedule_id. 3001;
}

two_threads : (worker_round env minute working).1.threads ≡ ("a", 0) ∷ ("c", 1) ∷ []
unfolding program worker_round reap done_ids forget_each run_due_schedules run_each Store.list
    choose start_thread
two_threads = refl

worker_round-Fits_example : Fits 2 (worker_round env minute working).1
worker_round-Fits_example = worker_round-Fits env minute working (omega arith)

unique_ids : HasUniqueIds (job_in "a" paused ∷ job_in "b" running ∷ [])
unfolding program
unique_ids = (refl, (refl, tt))

mark_interrupted_lem_example :
    ((mark_interrupted (λ i. 3) (job_in "a" paused ∷ job_in "b" running ∷ [])).0
      ≡ returned ("b" ∷ []))
    × (get "b" (mark_interrupted (λ i. 3) (job_in "a" paused ∷ job_in "b" running ∷ [])).1
        ≡ some (interrupted 3 (job_in "b" running)))
unfolding program
mark_interrupted_lem_example =
    mark_interrupted_lem (λ i. 3) (job_in "a" paused ∷ job_in "b" running ∷ []) "b" unique_ids

listed : In (job_in "a" running) (Jobs.list 100 none one_running.jobs)
unfolding program
listed = inl refl

emergency_stop_blocks_example : (emergency_stop env (λ i. 5) none one_running).0 ≡ blocked
emergency_stop_blocks_example =
    emergency_stop_blocks env (λ i. 5) none one_running (job_in "a" running) refl listed at_a refl

unset_flag : flagged "a" one_paused ≡ false
unfolding program
unset_flag = refl

abbrev closing : Closing
closing = record { completed = 11; duration = "0.5" }

cancelled_becomes_failed_example :
    (job' job'' : Job) × (job_at "a" (cancel "a" 5 one_paused).1 ≡ some job')
    × (job'.state ≡ cancelled)
    × (job_at "a" (end_run env echo closing "a" Polled.timed_out (cancel "a" 5 one_paused).1).1
        ≡ some job'')
    × (job''.state ≡ failed)
cancelled_becomes_failed_example =
    cancelled_becomes_failed env echo closing "a" 5 one_paused (job_in "a" paused) refl at_paused
      refl unset_flag

-- An adapter whose parser fails on the output, as one does on JSON that is no object.
abbrev strict : Adapter
strict = record echo { parse_output = λ out. raised (value_error ("no object" ∷ [])) }

end_run_lem_example : end_run env strict closing "a" (Polled.exited "[]" "" (pos 0)) one_running ≡ (
  map_returned
      (λ _. tt)
      (verdict env strict closing (Polled.exited "[]" "" (pos 0)) (flagged "a" one_running)),
  record one_running {
    jobs =
        recorded "a"
          (verdict env strict closing (Polled.exited "[]" "" (pos 0)) (flagged "a" one_running))
          one_running.jobs;
    procs = remove "a" one_running.procs;
    lock_held = false;
  },
)
end_run_lem_example =
    end_run_lem env strict closing "a" (Polled.exited "[]" "" (pos 0)) one_running
      (job_in "a" running) refl at_a

-- The job of the failed parser stays in the state running.
stays_running :
    job_at "a" (end_run env strict closing "a" (Polled.exited "[]" "" (pos 0)) one_running).1
    ≡ some (job_in "a" running)
unfolding program
stays_running = refl

abbrev launching : Launch
launching = record { started = 8; completed = 9; os_error = none }

begun : (begin_run env launching "c" one_paused).0 ≡ returned (some 1)
unfolding program
begun = refl

begin_run-MayRun_example :
    (job : Job) × (job_at "c" one_paused ≡ some job)
    × (flagged "c" one_paused ≡ false)
    × (command : List String) × MayRun env launching job command
begin_run-MayRun_example = begin_run-MayRun env launching "c" one_paused 1 refl begun

abbrev one_queued : Scheduler
one_queued = scheduler (job_in "c" queued ∷ [])

stopped_at_once : (emergency_stop env (λ i. 5) none one_queued).0 ≡ returned ("c" ∷ [])
unfolding program
stopped_at_once = refl

emergency_stop-submit_example :
    ((submit env readings scan (emergency_stop env (λ i. 5) none one_queued).1).0
      ≡ raised (ksec_error emergency_message))
    × ((submit env readings scan (restart (emergency_stop env (λ i. 5) none one_queued).1)).0
        ≡ raised (ksec_error emergency_message))
emergency_stop-submit_example =
    emergency_stop-submit env (λ i. 5) none one_queued none ("c" ∷ []) readings scan refl refl
      stopped_at_once

emergency_stop_clear-restart_example :
    ((emergency_stop_clear env none one_queued).0 ≡ returned tt)
    × ((emergency_stop_clear env none one_queued).1.emergency ≡ false)
    × ((restart (emergency_stop_clear env none one_queued).1).emergency ≡ false)
    × ((emergency_stop_clear env none one_queued).1.submit_times ≡ [])
    × ((emergency_stop_clear env none one_queued).1.user_submit_times ≡ [])
    × ((emergency_stop_clear env none one_queued).1.rate_blocked ≡ [])
    × ((emergency_stop_clear env none one_queued).1.jobs ≡ one_queued.jobs)
emergency_stop_clear-restart_example =
    emergency_stop_clear-restart env none one_queued none refl refl

abbrev one_done : Scheduler
one_done = scheduler (job_in "a" JobState.completed ∷ [])

abbrev again : Job
again = new_job "b" 9 (retry_spec "a" (job_in "a" JobState.completed))

retried : (retry env readings "a" one_done).0 ≡ returned again
unfolding program
retried = refl

retry_returned_example :
    (old : Job) × (Jobs.get "a" one_done.jobs ≡ some old)
    × (terminal old.state ≡ true)
    × IsRetryOf "a" old again
    × (again.id ≡ "b")
    × (any (has_id "b") one_done.jobs ≡ false)
    × ((retry env readings "a" one_done).1.jobs ≡ one_done.jobs ++ again ∷ [])
retry_returned_example = retry_returned env readings "a" one_done again refl retried
