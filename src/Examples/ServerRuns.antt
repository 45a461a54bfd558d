-- ===== src/Examples/ServerRuns.antt =====
-- Calls of the two listeners, and a turn of the worker, on a small store.
use pj_clusterintent.Prelude.{
  arith, eq_iff, ℕ, String, ◌≡◌, refl, sym, ap, some_inj, ◌⊎◌, inl, inr, true, false, Bool, Option,
  some, none, List, [], ◌∷◌, All, is_some,
}
use pj_clusterintent.Prelude.Dict
use pj_clusterintent.Prelude.Result.{ok, err}
use pj_clusterintent.Evidence.{RequestState, is_terminal}
use pj_clusterintent.Store.Owner.{Identity, owner_key}
use pj_clusterintent.Store.Model.{Request}
use pj_clusterintent.Store.{list_sessions, get_request}
use pj_clusterintent.Worker.{System, TurnResult, run_one, begin}
use pj_clusterintent.Worker.Laws.{HasEnded, run_one_ends}
use pj_clusterintent.Server.Routes.{Door, dispatch_post}
use pj_clusterintent.Server.{
  ApiError, Answer, Body, Call, do_post, get_request_handler, cancel_request_handler,
  list_sessions_handler, list_session_requests_handler,
}
use pj_clusterintent.Server.Laws.{do_post_refused}
use pj_clusterintent.Server.Waiting.{IsWaiting, IsWaitingIn}
use pj_clusterintent.Server.Queue.{do_post_forgets_nothing, begin_takes_the_head}
use pj_clusterintent.Server.Privacy.{
  MaySee, get_request_is_private, cancel_is_private, list_sessions_is_private,
  list_session_requests_is_private,
}
use pj_clusterintent.Examples.StoreRuns.{node_a, one_running, one_running-IsWellFormed, store_runs}

abbrev pub system : System
system = record { store = one_running; queue = "req_1" ∷ []; cancel_flags = [] }

abbrev by_node_a : Call
by_node_a = record {
  caller = ok node_a;
  body = Body.empty;
  now = 50;
  hex = "9";
  session_id = "ses_9";
}

unfoldable pub server_runs : Unit {0}
unfolding store_runs get_request pj_clusterintent.Prelude.Sort.sort get_request_handler
    cancel_request_handler list_sessions_handler list_session_requests_handler list_sessions do_post
    dispatch_post
server_runs = tt

abbrev pub or_other : Option Request → Request
or_other (some r) = r
or_other none = record {
  request_id = "";
  session_id = "";
  identity = node_a;
  message = "";
  state = RequestState.failed;
  created_at = 0;
  updated_at = 0;
  response = none;
  error = none;
  cost_usd = none;
  backend = none;
}

abbrev pub req_1 : Request
req_1 = or_other (Dict.get "req_1" one_running.requests)

abbrev req_2 : Request
req_2 = or_other (Dict.get "req_2" one_running.requests)

pub req_1_is_there : Dict.get "req_1" system.store.requests ≡ some req_1
unfolding server_runs
req_1_is_there = refl

req_2_is_there : Dict.get "req_2" system.store.requests ≡ some req_2
unfolding server_runs
req_2_is_there = refl

abbrev not_found : ApiError
not_found = record { status = 404; code = "not_found"; request_id = none }

no_such_route : (do_post Door.window "/requests" by_node_a system).0 ≡ err not_found
unfolding server_runs
no_such_route = refl

do_post_refused_example : (do_post Door.window "/requests" by_node_a system).1 ≡ system
do_post_refused_example =
    do_post_refused Door.window "/requests" by_node_a system not_found no_such_route

shown_to_node_a : (get_request_handler "req_1" by_node_a system).0 ≡ ok (Answer.request req_1)
unfolding server_runs
shown_to_node_a = refl

get_request_is_private_example :
    (Dict.get "req_1" system.store.requests ≡ some req_1)
    × ((i : Identity) × (by_node_a.caller ≡ ok i) × MaySee i req_1.identity)
get_request_is_private_example =
    get_request_is_private "req_1" by_node_a system req_1 shown_to_node_a

cancelled_by_node_a :
    (cancel_request_handler "req_2" by_node_a system).0 ≡ ok (Answer.request req_2)
unfolding server_runs
cancelled_by_node_a = refl

cancel_is_private_example :
    (r : Request) × (Dict.get "req_2" system.store.requests ≡ some r)
    × ((i : Identity) × (by_node_a.caller ≡ ok i) × (owner_key r.identity ≡ owner_key i))
cancel_is_private_example =
    cancel_is_private "req_2" by_node_a system (Answer.request req_2) cancelled_by_node_a

sessions_of_node_a :
    (list_sessions_handler by_node_a system).0 ≡ ok (Answer.sessions (list_sessions one_running))
unfolding server_runs
sessions_of_node_a = refl

list_sessions_is_private_example :
    All (λ s. owner_key s.identity ≡ owner_key node_a) (list_sessions one_running)
list_sessions_is_private_example =
    list_sessions_is_private by_node_a system node_a (list_sessions one_running) refl refl
      sessions_of_node_a

requests_of_node_a :
    (list_session_requests_handler "ses_1" by_node_a system).0
    ≡ ok (Answer.requests (req_1 ∷ req_2 ∷ []))
unfolding server_runs
requests_of_node_a = refl

list_session_requests_is_private_example :
    All (λ r. owner_key r.identity ≡ owner_key node_a) (req_1 ∷ req_2 ∷ [])
list_session_requests_is_private_example =
    list_session_requests_is_private "ses_1" by_node_a system node_a (req_1 ∷ req_2 ∷ [])
      one_running-IsWellFormed refl refl requests_of_node_a

-- A runner that answers, and one turn of which raises.
abbrev answers : String → Option TurnResult
answers task = some (record {
  text = "done";
  state = RequestState.completed;
  error = none;
  cost_usd = none;
  backend = none;
})

abbrev pub undisturbed : System → System
undisturbed y = y

answers_ends :
    (task : String) (result : TurnResult)
    → answers task ≡ some result
    → is_terminal result.state ≡ true
answers_ends task result h = ap (λ x. is_terminal x.state) (sym (some_inj h))

run_one_ends_example : HasEnded "req_1" (run_one answers undisturbed 60 "req_1" system)
run_one_ends_example =
    run_one_ends answers undisturbed 60 "req_1" system req_1 req_1_is_there
      (unfold server_runs in refl) (λ z h. h) answers_ends

system-IsWaiting : IsWaiting system.store ("req_1" ∷ [])
unfolding server_runs
system-IsWaiting rid r h q = ground (arith, eq_iff "req_1" rid, eq_iff "req_2" rid)

do_post_forgets_nothing_example :
    IsWaitingIn (do_post (Door.api false) "/requests/req_2/cancel" by_node_a system).1
do_post_forgets_nothing_example =
    do_post_forgets_nothing (Door.api false) "/requests/req_2/cancel" by_node_a system
      system-IsWaiting

begin_takes_the_head_example : IsWaiting (begin 60 "req_1" system).1.store []
begin_takes_the_head_example =
    begin_takes_the_head 60 "req_1" [] system req_1 req_1_is_there system-IsWaiting
