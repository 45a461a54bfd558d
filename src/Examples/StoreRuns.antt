-- ===== src/Examples/StoreRuns.antt =====
-- A store with a session of one node: its first request, and a second one that is running.
use pj_clusterintent.Prelude.{String, ◌≡◌, refl, some, none, List, [], ◌∷◌}
use pj_clusterintent.Prelude.Dict
use pj_clusterintent.Evidence.{RequestState, list_request_ids, Evidence}
use pj_clusterintent.Store.Owner.{Identity, owner_key, as_dict}
use pj_clusterintent.Store.Model.{Session, Store, no_fields, Fields}
use pj_clusterintent.Store.{
  empty, create_session_and_request, continue_session, update_request, list_session_requests,
}
use pj_clusterintent.Store.Scan.{scan_and_load}
use pj_clusterintent.Store.WellFormed.{
  IsWellFormed, empty-IsWellFormed, create_session_and_request-IsWellFormed,
  continue_session-IsWellFormed, update_request-IsWellFormed,
}
use pj_clusterintent.Store.Durable.{
  IsDurable, empty-IsDurable, create_session_and_request-IsDurable, continue_session-IsDurable,
  update_request-IsDurable,
}
use pj_clusterintent.Store.Rescan.{map_settle, unfinished}
use pj_clusterintent.Store.Restarts.{map_close}
use pj_clusterintent.Store.Runs.{
  IsFresh, Call, Run, Run-IsWellFormed, Run-IsDurable, restart_recovers, second_restart_is_quiet,
}
use pj_clusterintent.Evidence.{RequestRecord}

unfoldable pub store_runs : Unit {0}
unfolding create_session_and_request continue_session update_request list_session_requests owner_key
    Dict.get Dict.put
store_runs = tt

abbrev pub node_a : Identity
node_a = record { identity_class = "node"; uuid = some "u1"; cert_serial = some "0a"; name = none }

abbrev pub operator : Identity
operator = record {
  identity_class = "human";
  uuid = none;
  cert_serial = none;
  name = some "operator";
}

abbrev start : Store
start = empty (some [])

abbrev one_request : Store
one_request = (create_session_and_request 10 "1" "ses_1" node_a "hello" start).1

abbrev two_requests : Store
two_requests = (continue_session 20 "2" "ses_1" node_a "again" one_request).1

abbrev to_running : Fields
to_running = record no_fields { state = some RequestState.running }

abbrev pub one_running : Store
one_running = (update_request 30 "req_2" to_running two_requests).1

one_request-IsWellFormed : IsWellFormed one_request
one_request-IsWellFormed =
    create_session_and_request-IsWellFormed 10 "1" node_a "hello" "ses_1" start
      (empty-IsWellFormed (some [])) (unfold Dict.get in refl)

req_2_is_fresh : Dict.get "req_2" one_request.requests ≡ none
unfolding store_runs
req_2_is_fresh = refl

two_requests-IsWellFormed : IsWellFormed two_requests
two_requests-IsWellFormed =
    continue_session-IsWellFormed 20 "2" node_a "again" "ses_1" one_request one_request-IsWellFormed
      req_2_is_fresh

pub one_running-IsWellFormed : IsWellFormed one_running
one_running-IsWellFormed =
    update_request-IsWellFormed 30 "req_2" to_running two_requests two_requests-IsWellFormed

one_running-IsDurable : IsDurable one_running
one_running-IsDurable = update_request-IsDurable 30 "req_2" to_running two_requests refl (
    continue_session-IsDurable 20 "2" node_a "again" refl "ses_1" one_request (
      create_session_and_request-IsDurable 10 "1" node_a "hello" refl "ses_1" start
        empty-IsDurable))

abbrev the_session : Session
the_session = record {
  session_id = "ses_1";
  identity = node_a;
  created_at = 10;
  request_ids = "req_1" ∷ "req_2" ∷ [];
}

session_is_there : Dict.get "ses_1" one_running.sessions ≡ some the_session
unfolding store_runs
session_is_there = refl

first-IsFresh : IsFresh "1" node_a start
unfolding store_runs
first-IsFresh = record { unused = refl; canonical = refl }

second-IsFresh : IsFresh "2" node_a one_request
unfolding store_runs
second-IsFresh = record { unused = refl; canonical = refl }

pub run_of_one_running : Run one_running
run_of_one_running =
    Run.next
      (Run.next (Run.next Run.start (Call.create 10 "1" "ses_1" node_a "hello" first-IsFresh))
        (Call.continue 20 "2" "ses_1" node_a "again" second-IsFresh))
      (Call.update 30 "req_2" to_running refl)

abbrev pub disk : Evidence
disk = elim one_running.evidence [ none ↦ [] | some e ↦ e ]

pub disk_is_there : one_running.evidence ≡ some disk
unfolding store_runs
disk_is_there = refl

Run-IsWellFormed_example : IsWellFormed one_running
Run-IsWellFormed_example = Run-IsWellFormed run_of_one_running

Run-IsDurable_example : IsDurable one_running
Run-IsDurable_example = Run-IsDurable run_of_one_running

restart_recovers_example :
    (s' : Store) × (newly : List String) × (scan_and_load 99 disk ≡ some (s', newly))
    × ((rid : String) → Dict.get rid s'.requests ≡ map_settle (Dict.get rid one_running.requests))
    × (newly ≡ unfinished one_running.requests (list_request_ids disk))
restart_recovers_example = restart_recovers 99 disk run_of_one_running disk_is_there

second_restart_is_quiet_example :
    (s' : Store) × (newly : List String) × (disk' : Evidence) × (s'' : Store) × (scan_and_load 99
        disk
      ≡ some (s', newly))
    × (s'.evidence ≡ some disk')
    × (scan_and_load 120 disk' ≡ some (s'', []))
    × ((rid : String)
        → Dict.get rid s''.requests ≡ map_close 99 (Dict.get rid one_running.requests))
second_restart_is_quiet_example =
    second_restart_is_quiet 99 120 disk run_of_one_running disk_is_there

abbrev a_record : RequestRecord
a_record = record {
  request_id = "req_1";
  session_id = "ses_1";
  identity = as_dict node_a;
  message = "hello";
  created_at = 10;
}

abbrev small_disk : Evidence
small_disk =
    ("req_1", record { request_json = some a_record; events = [] })
    ∷ ("stray", record { request_json = none; events = [] })
    ∷ []
