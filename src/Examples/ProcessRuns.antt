-- ===== src/Examples/ProcessRuns.antt =====
-- A run of the process: a window request that the window's worker takes while a cancel is on its way.
use pj_clusterintent.Prelude.{String, ◌≡◌, ◌≢◌, refl, true, some, none, [], ◌∷◌, ◌⊎◌, Among, All}
use pj_clusterintent.Prelude.Dict
use pj_clusterintent.Prelude.Lines.{strip, is_blank}
use pj_clusterintent.Prelude.Sort.{sort}
use pj_clusterintent.Prelude.Result.{ok}
use pj_clusterintent.Evidence.{
  RequestState, is_terminal, list_request_ids, append_event, record_created, read_request,
  read_latest_event,
}
use pj_clusterintent.Store.Model.{Request, Store, record_of}
use pj_clusterintent.Store.Scan.{scan_and_load}
use pj_clusterintent.Store.{empty}
use pj_clusterintent.Worker.{fields_of}
use pj_clusterintent.Server.{Body, Call, Json, create_window_request}
use pj_clusterintent.Process.{
  Entrance, Process, opened, post, take_head, begin_turn, end_turn, read_cancel, write_cancel,
  cancel_reads, Steps, here, next, posted, taken, started, cancel_read, cancel_written,
}
use pj_clusterintent.Process.Turning.{IsTurning, IsAwaited, requests, busy, queue}
use pj_clusterintent.Process.Lifecycle.{Spares, ended_is_final}
use pj_clusterintent.Process.Waiting.{nothing_is_lost}
use pj_clusterintent.Process.Opening.{opened-IsTurning, opened-IsAwaited, restart_opens_idle}
use pj_clusterintent.Examples.StoreRuns.{
  node_a, store_runs, run_of_one_running, disk, disk_is_there,
}
use pj_clusterintent.Examples.ServerRuns.{server_runs, or_other}

abbrev asks : Call
asks = record {
  caller = ok node_a;
  body = Body.object (("text", Json.string "hello") ∷ []);
  now = 10;
  hex = "9";
  session_id = "ses_9";
}

abbrev start : Process
start = opened (empty none)

process_runs : Unit {0}
unfolding strip is_blank server_runs post take_head begin_turn end_turn read_cancel write_cancel
    cancel_reads create_window_request fields_of
process_runs = tt

abbrev waiting : Process
waiting = post Entrance.window "/window" asks start

abbrev held : Process
held = take_head Entrance.window "req_9" [] waiting

abbrev cancelling : Process
cancelling = read_cancel Entrance.window "req_9" true held

abbrev running : Process
running = begin_turn Entrance.window 20 "req_9" cancelling

abbrev marked : Process
marked =
    write_cancel 25 (record { entrance = Entrance.window; request_id = "req_9"; marks = true }) []
      [] running

abbrev over : Process
over = end_turn Entrance.window 30 "req_9" none marked

abbrev answered : Process
answered = post Entrance.node "/requests/req_9/cancel" (record asks { hex = "10" }) over

start_has_ended :
    (rid : String) (r : Request)
    → Dict.get rid (requests start) ≡ some r
    → is_terminal r.state ≡ true
unfolding process_runs
start_has_ended rid r h = cc

start-IsTurning : IsTurning start
start-IsTurning = opened-IsTurning (empty none) start_has_ended

start-IsAwaited : IsAwaited start
start-IsAwaited = opened-IsAwaited (empty none) start_has_ended

-- A cancel reads the request as queued, the worker begins it, and the cancel marks it: the worker is busy
-- with a cancelled request.
until_marked : Steps start marked
unfolding process_runs
until_marked =
    next
      (next
        (next
          (next (next here (posted Entrance.window "/window" asks refl))
            (taken Entrance.window "req_9" [] refl refl))
          (cancel_read Entrance.window "req_9" asks true refl))
        (started Entrance.window 20 "req_9" refl))
      (cancel_written 25 (record { entrance = Entrance.window; request_id = "req_9"; marks = true })
        [] [] refl)

abbrev marked_request : Request
marked_request = or_other (Dict.get "req_9" (requests marked))

marked_request_is_there : Dict.get "req_9" (requests marked) ≡ some marked_request
unfolding process_runs
marked_request_is_there = refl

nothing_is_lost_example :
    (is_terminal marked_request.state ≡ true)
    ⊎ (((d : Entrance) × (busy marked d ≡ some "req_9"))
        ⊎ ((d : Entrance) × Among "req_9" (queue marked d)))
nothing_is_lost_example =
    nothing_is_lost "req_9" marked_request start-IsTurning start-IsAwaited until_marked
      marked_request_is_there

abbrev ended_request : Request
ended_request = or_other (Dict.get "req_9" (requests over))

-- The turn overwrites the cancelled request, which the worker still had in hand.
cancelled_then_failed :
    (marked_request.state ≡ RequestState.cancelled) × (ended_request.state ≡ RequestState.failed)
unfolding process_runs
cancelled_then_failed = (refl, refl)

ended_request_is_there : Dict.get "req_9" (requests over) ≡ some ended_request
unfolding process_runs
ended_request_is_there = refl

ended_request_has_ended : is_terminal ended_request.state ≡ true
unfolding process_runs
ended_request_has_ended = refl

nobody_holds_it : (d : Entrance) → busy over d ≢ some "req_9"
unfolding process_runs
nobody_holds_it Entrance.node h = cc
nobody_holds_it Entrance.human h = cc
nobody_holds_it Entrance.window h = cc

no_cancel_is_left : All (Spares "req_9") over.cancels
unfolding process_runs
no_cancel_is_left = tt

until_answered : Steps over answered
unfolding process_runs
until_answered =
    next here (posted Entrance.node "/requests/req_9/cancel" (record asks { hex = "10" }) refl)

ended_is_final_example :
    (Dict.get "req_9" (requests answered) ≡ some ended_request)
    × ((d : Entrance) → busy answered d ≢ some "req_9")
    × All (Spares "req_9") answered.cancels
ended_is_final_example =
    ended_is_final "req_9" ended_request ended_request_is_there ended_request_has_ended
      nobody_holds_it no_cancel_is_left until_answered

abbrev restarted : Store
restarted = elim (scan_and_load 99 disk) [ none ↦ empty none | some (s, newly) ↦ s ]

the_restart : scan_and_load 99 disk ≡ some (restarted, "req_1" ∷ "req_2" ∷ [])
unfolding store_runs scan_and_load list_request_ids sort append_event record_created record_of
    read_request read_latest_event
the_restart = refl

restart_opens_idle_example : IsTurning (opened restarted) × IsAwaited (opened restarted)
restart_opens_idle_example =
    restart_opens_idle 99 disk restarted ("req_1" ∷ "req_2" ∷ []) run_of_one_running disk_is_there
      the_restart
