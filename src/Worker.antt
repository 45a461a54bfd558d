-- ===== src/Worker.antt =====
-- cagent/src/cagent_api/worker.py: one thread drains one queue. What the handlers do while the runner
-- is busy is an argument, and so is the runner (agent_runner.py): `none` is an exception that it raises.
pub mod Task
pub mod TaskLaws
pub mod Laws
use pj_clusterintent.Prelude.{
  ℕ, String, Bool, true, false, not, ◌&&◌, Option, none, some, List, [], ◌∷◌, ◌++◌, any, str_eq,
  if◌then◌else◌,
}
use pj_clusterintent.Prelude.Result.{Result, ok, err}
use pj_clusterintent.Evidence.{RequestState, ErrorInfo, Backend}
use pj_clusterintent.Store.Model.{Request, Store, StoreError, Fields, no_fields}
use pj_clusterintent.Store.{get_request, update_request, list_session_requests}
use pj_clusterintent.Worker.Task.{Turn, compose_task}

-- One turn's outcome; its `state` is completed, failed or cancelled.
pub record TurnResult : Type 0 where
  pub text : String
  pub state : RequestState
  pub error : Option ErrorInfo
  pub cost_usd : Option ℕ
  pub backend : Option Backend

-- The store with the worker's queue and its set of flags.
pub record System : Type 0 where
  pub store : Store
  pub queue : List String
  pub cancel_flags : List String

abbrev pub enqueue : String → System → System
enqueue request_id y = record y { queue = y.queue ++ request_id ∷ [] }

abbrev pub is_cancel_requested : String → System → Bool
is_cancel_requested request_id y = any (str_eq request_id) y.cancel_flags

abbrev pub request_cancel : String → System → System
request_cancel request_id y =
    if is_cancel_requested request_id y
    then y
    else record y { cancel_flags = request_id ∷ y.cancel_flags }

unfoldable pub discard : String → List String → List String
discard x [] = []
discard x (i ∷ is) = let rest = discard x is in if str_eq x i then rest else i ∷ rest

abbrev pub clear_cancel : String → System → System
clear_cancel request_id y = record y { cancel_flags = discard request_id y.cancel_flags }

-- A request that answered: `request.response` is true of a text that is not empty.
abbrev pub has_answered : Request → Bool
has_answered r = elim r.response [ none ↦ false | some text ↦ not (str_eq text "") ]

unfoldable pub earlier : String → List Request → List Turn
earlier request_id [] = []
earlier request_id (r ∷ rs) =
    let rest = earlier request_id rs in
    if not (str_eq r.request_id request_id) && has_answered r
    then record { asked = r.message; answered = r.response } ∷ rest
    else rest

unfoldable pub history : (request_id session_id : String) → Store → List Turn
unfolding earlier
history request_id session_id s = elim (list_session_requests session_id s) [
  | err e ↦ []
  | ok requests ↦ earlier request_id requests
]

abbrev pub to_state : RequestState → Fields
to_state state = record no_fields { state = some state }

abbrev pub is_queued : RequestState → Bool
is_queued RequestState.queued = true
is_queued _ = false

abbrev pub is_completed : RequestState → Bool
is_completed RequestState.completed = true
is_completed _ = false

-- The keywords of the last update: a response only of a completed turn, an error only if there is one.
unfoldable pub fields_of : TurnResult → Fields
fields_of result = record {
  state = some result.state;
  response = if is_completed result.state then some (some result.text) else none;
  error = elim result.error [ none ↦ none | some e ↦ some (some e) ];
  cost_usd = some result.cost_usd;
  backend = some result.backend;
}

abbrev pub crashed : Fields
crashed = record no_fields {
  state = some RequestState.failed;
  error = some (
      some
        (record { code = "internal_error"; message = "worker crashed processing this request" }));
}

abbrev pub update : ℕ → String → Fields → System → System
update now request_id fields y = record y {
  store = (update_request now request_id fields y.store).1;
}

-- `_process` up to the call of the runner: the task, if there is one to run.
unfoldable pub begin : ℕ → String → System → Result StoreError (Option String) × System
unfolding history
begin now request_id y = elim (get_request request_id y.store) [
  | err e ↦ (err e, y)
  | ok request ↦
      if not (is_queued request.state)
      then (ok none, y)
      else if is_cancel_requested request_id y
      then (ok none, update now request_id (to_state RequestState.cancelled) y)
      else (let y' = update now request_id (to_state RequestState.running) y in
          (
            ok (
                some
                  (compose_task request.message (history request_id request.session_id y'.store))),
            y',
          ))
]

-- `_process` behind that call, and the `except` of `_run`.
abbrev pub finish : ℕ → String → Option TurnResult → System → System
finish now request_id none y = update now request_id crashed y
finish now request_id (some result) y = update now request_id (fields_of result) y

-- A request that is not in the store raises in `_process` and again in the `except`, which ends the thread;
-- here the turn leaves the system as it is, and Process has the worker stopped.
abbrev pub proceed :
    (run : String → Option TurnResult) (meanwhile : System → System) (now : ℕ)
    → String
    → Result StoreError (Option String) × System
    → System
proceed run meanwhile now request_id (err e, y) = update now request_id crashed y
proceed run meanwhile now request_id (ok none, y) = y
proceed run meanwhile now request_id (ok (some task), y) =
    finish now request_id (run task) (meanwhile y)

-- One turn of the loop of `_run`, behind `self._queue.get()`.
unfoldable pub run_one :
    (run : String → Option TurnResult) (meanwhile : System → System) (now : ℕ)
    → String
    → System
    → System
unfolding begin fields_of
run_one run meanwhile now request_id y =
    clear_cancel request_id (proceed run meanwhile now request_id (begin now request_id y))
