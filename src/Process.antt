-- ===== src/Process.antt =====
-- cagent/src/cagent_api/main.py with worker.py and server.py: the process, which is one store behind three
-- entrances, each with a worker of its own. A step ends where a call of the store does, and the enqueue that
-- follows a creation belongs to it. The worker reads a request in one step and marks it in the next, and so
-- does a cancel; all else may come in between.
pub mod Handled
pub mod Turns
pub mod Turning
pub mod Halves
pub mod Fair
pub mod Written
pub mod Lifecycle
pub mod Waiting
pub mod Opening
use Prim.Native.String
use pj_clusterintent.Prelude.{
  ℕ, String, Bool, true, false, Option, none, some, List, [], ◌∷◌, ◌++◌, ◌≡◌, if◌then◌else◌, not,
}
use pj_clusterintent.Prelude.Dict
use pj_clusterintent.Prelude.Result.{ok, err}
use pj_clusterintent.Evidence.{RequestState, is_terminal}
use pj_clusterintent.Store.{get_request}
use pj_clusterintent.Store.Model.{Store}
use pj_clusterintent.Worker.{
  System, TurnResult, finish, clear_cancel, update, is_queued, is_cancel_requested, request_cancel,
  to_state,
}
use pj_clusterintent.Server.{Call, do_post, owns}
use pj_clusterintent.Server.Routes.{Door}

pub data Entrance : Type 0 where
  node human window : Entrance

abbrev pub is_same : Entrance → Entrance → Bool
is_same Entrance.node Entrance.node = true
is_same Entrance.human Entrance.human = true
is_same Entrance.window Entrance.window = true
is_same _ _ = false

-- The user interface is served to people only.
abbrev pub door_of : Entrance → Door
door_of Entrance.node = Door.api false
door_of Entrance.human = Door.api true
door_of Entrance.window = Door.window

-- What a worker is at: it waits, it has read that a request is queued, its runner is busy with a request,
-- or its thread has ended by an exception of its own `except`.
pub data Activity : Type 0 where
  idle : Activity
  holds : String → Activity
  runs : String → Activity
  stopped : Activity

abbrev pub request_of : Activity → Option String
request_of Activity.idle = none
request_of (Activity.holds rid) = some rid
request_of (Activity.runs rid) = some rid
request_of Activity.stopped = none

-- A worker: its queue, its flags, and what it is at.
pub record Lane : Type 0 where
  pub queue : List String
  pub cancel_flags : List String
  pub activity : Activity

-- A cancel that has read its request and has not written yet: it `marks` a request that it has read as
-- queued, and flags one that it has read as running.
pub record Cancel : Type 0 where
  pub entrance : Entrance
  pub request_id : String
  pub marks : Bool

pub record Process : Type 0 where
  pub store : Store
  pub lanes : Entrance → Lane
  pub cancels : List Cancel

abbrev pub set_lane : Entrance → Lane → (Entrance → Lane) → Entrance → Lane
set_lane d lane lanes e = if is_same d e then lane else lanes e

-- What `main` sets up: each entrance has a `Worker` of its own over the one store.
abbrev pub opened : Store → Process
opened s = record {
  store = s;
  lanes = λ d. record { queue = []; cancel_flags = []; activity = Activity.idle };
  cancels = [];
}

-- What the handlers of an entrance and its worker see of the process.
abbrev pub system : Entrance → Process → System
system d p = record {
  store = p.store;
  queue = (p.lanes d).queue;
  cancel_flags = (p.lanes d).cancel_flags;
}

abbrev pub put_system : Entrance → System → Activity → Process → Process
put_system d y activity p = record p {
  store = y.store;
  lanes =
      set_lane d (record { queue = y.queue; cancel_flags = y.cancel_flags; activity = activity })
        p.lanes;
}

-- `_process` up to its test of the state. A request that is not there raises in `_process` and again in the
-- `except`, which ends the thread.
unfoldable pub taken_by : String → System → System × Activity
taken_by rid y = elim (get_request rid y.store) [
  | err e ↦ (clear_cancel rid y, Activity.stopped)
  | ok request ↦
      if is_queued request.state
      then (y, Activity.holds rid)
      else (clear_cancel rid y, Activity.idle)
]

-- `_process` from there to the call of the runner.
unfoldable pub started_by : ℕ → String → System → System × Activity
started_by now rid y =
    if is_cancel_requested rid y
    then (clear_cancel rid (update now rid (to_state RequestState.cancelled) y), Activity.idle)
    else (update now rid (to_state RequestState.running) y, Activity.runs rid)

-- `_cancel_request` up to what it writes: none where it writes nothing, else whether it marks the request.
unfoldable pub cancel_reads : String → Call → System → Option Bool
cancel_reads rid c y = elim c.caller [
  | err e ↦ none
  | ok i ↦ elim (get_request rid y.store) [
    | err e ↦ none
    | ok request ↦
        if not (owns i request.identity)
        then none
        else if is_terminal request.state
        then none
        else some (is_queued request.state)
  ]
]

-- What `_cancel_request` writes.
unfoldable pub cancel_writes : ℕ → String → (marks : Bool) → System → System
cancel_writes now rid marks y =
    if marks then update now rid (to_state RequestState.cancelled) y else request_cancel rid y

-- A POST that is answered at an entrance.
unfoldable pub post : Entrance → (path : String) → Call → Process → Process
post d path c p = put_system d (do_post (door_of d) path c (system d p)).1 (p.lanes d).activity p

-- The worker of an entrance takes the head of its queue; `rest` is what stands behind it.
unfoldable pub take_head : Entrance → String → (rest : List String) → Process → Process
unfolding taken_by
take_head d rid rest p =
    let (y, activity) = taken_by rid (record (system d p) { queue = rest }) in
    put_system d y activity p

-- The worker marks the request that it holds.
unfoldable pub begin_turn : Entrance → ℕ → String → Process → Process
unfolding started_by
begin_turn d now rid p =
    let (y, activity) = started_by now rid (system d p) in put_system d y activity p

-- The runner returns, or raises, and the worker writes what came of it.
unfoldable pub end_turn : Entrance → ℕ → String → Option TurnResult → Process → Process
end_turn d now rid outcome p =
    put_system d (clear_cancel rid (finish now rid outcome (system d p))) Activity.idle p

-- A cancel has read its request, and stands among those that are to write.
unfoldable pub read_cancel : Entrance → String → (marks : Bool) → Process → Process
read_cancel d rid marks p = record p {
  cancels = record { entrance = d; request_id = rid; marks = marks } ∷ p.cancels;
}

-- The cancel between `before` and `behind` writes.
unfoldable pub write_cancel : ℕ → Cancel → (before behind : List Cancel) → Process → Process
unfolding cancel_writes
write_cancel now c before behind p =
    put_system c.entrance (cancel_writes now c.request_id c.marks (system c.entrance p))
      (p.lanes c.entrance).activity (record p { cancels = before ++ behind })

-- What the runner gives has ended (`run` of agent_runner.py).
abbrev pub IsOutcome : Option TurnResult → Type 0
IsOutcome none = Unit
IsOutcome (some result) = is_terminal result.state ≡ true

-- A GET is no step of its own: its handlers give back the system that they are given. uuid4 gives an id that
-- no request has. A cancel is a POST in one step, or a read and a write with other steps between.
pub data Step (p : Process) : Process → Type 0 where
  posted :
      (d : Entrance) (path : String) (c : Call)
      → Dict.get (String.◌++◌ "req_" c.hex) p.store.requests ≡ none
      → Step p (post d path c p)
  cancel_read :
      (d : Entrance) (rid : String) (c : Call) (marks : Bool)
      → cancel_reads rid c (system d p) ≡ some marks
      → Step p (read_cancel d rid marks p)
  cancel_written :
      (now : ℕ) (c : Cancel) (before behind : List Cancel)
      → p.cancels ≡ before ++ c ∷ behind
      → Step p (write_cancel now c before behind p)
  taken :
      (d : Entrance) (rid : String) (rest : List String)
      → (p.lanes d).queue ≡ rid ∷ rest
      → (p.lanes d).activity ≡ Activity.idle
      → Step p (take_head d rid rest p)
  started :
      (d : Entrance) (now : ℕ) (rid : String)
      → (p.lanes d).activity ≡ Activity.holds rid
      → Step p (begin_turn d now rid p)
  ended :
      (d : Entrance) (now : ℕ) (rid : String) (outcome : Option TurnResult)
      → (p.lanes d).activity ≡ Activity.runs rid
      → IsOutcome outcome
      → Step p (end_turn d now rid outcome p)

pub data Steps (p : Process) : Process → Type 0 where
  here : Steps p p
  next : {q r : Process} → Steps p q → Step q r → Steps p r
