-- ===== src/Worker/Laws.antt =====
-- What one turn of the worker's loop leaves in the store.
use pj_clusterintent.Prelude.{
  ℕ, String, true, false, Option, none, some, ◌≡◌, refl, sym, Bool-cases, Option-cases, inl, inr,
  ap, is_some,
}
use mathlib.Core.Path.{subst}
use pj_clusterintent.Prelude.Dict
use pj_clusterintent.Prelude.Dict.{get-put_self}
use pj_clusterintent.Prelude.Result.{ok}
use pj_clusterintent.Evidence.{RequestState, is_terminal}
use pj_clusterintent.Store.Model.{Request, Fields}
use pj_clusterintent.Store.{update_request, set_fields, get_request}
use pj_clusterintent.Worker.Task.{compose_task}
use pj_clusterintent.Worker.{
  System, TurnResult, run_one, begin, finish, update, crashed, fields_of, to_state, is_queued,
  is_cancel_requested, clear_cancel, proceed, history,
}

pub get-update :
    (now : ℕ) (rid : String) (f : Fields) (y : System) (r : Request)
    → Dict.get rid y.store.requests ≡ some r
    → Dict.get rid (update now rid f y).store.requests ≡ some (set_fields now f r)
unfolding update_request
get-update now rid f y r h = rw (h, update_request) (get-put_self _ _ _)

pub begin_settled :
    (now : ℕ) (rid : String) (y : System) (r : Request)
    → Dict.get rid y.store.requests ≡ some r
    → is_queued r.state ≡ false
    → begin now rid y ≡ (ok none, y)
unfolding begin get_request
begin_settled now rid y r h q = rw (begin, h, q) refl

pub begin_cancelled :
    (now : ℕ) (rid : String) (y : System) (r : Request)
    → Dict.get rid y.store.requests ≡ some r
    → is_queued r.state ≡ true
    → is_cancel_requested rid y ≡ true
    → begin now rid y ≡ (ok none, update now rid (to_state RequestState.cancelled) y)
unfolding begin get_request
begin_cancelled now rid y r h q c = rw (begin, h, q, c) refl

pub begin_started :
    (now : ℕ) (rid : String) (y : System) (r : Request)
    → Dict.get rid y.store.requests ≡ some r
    → is_queued r.state ≡ true
    → is_cancel_requested rid y ≡ false
    → (task : String) × (begin now rid y
        ≡ (ok (some task), update now rid (to_state RequestState.running) y))
unfolding begin get_request
begin_started now rid y r h q c = (
  compose_task r.message
      (history rid r.session_id (update now rid (to_state RequestState.running) y).store),
  rw (begin, h, q, c) refl,
)

-- A request that is no longer queued, such as one cancelled in the queue, is left as it is: the
-- store stays, whatever the runner would give.
run_one_skips :
    (run : String → Option TurnResult) (meanwhile : System → System) (now : ℕ) (rid : String)
    (y : System) (r : Request)
    → Dict.get rid y.store.requests ≡ some r
    → is_queued r.state ≡ false
    → (run_one run meanwhile now rid y).store ≡ y.store
unfolding run_one
run_one_skips run meanwhile now rid y r h q =
    ap (λ b. (proceed run meanwhile now rid b).store) (begin_settled now rid y r h q)

-- The request stands in the store and has ended.
pub record HasEnded (rid : String) (y : System) : Type 0 where
  pub request : Request
  pub found : Dict.get rid y.store.requests ≡ some request
  pub ended : is_terminal request.state ≡ true

finish-HasEnded :
    (now : ℕ) (rid : String) (outcome : Option TurnResult) (y : System) (r : Request)
    → Dict.get rid y.store.requests ≡ some r
    → ((result : TurnResult) → outcome ≡ some result → is_terminal result.state ≡ true)
    → HasEnded rid (finish now rid outcome y)
unfolding fields_of set_fields
finish-HasEnded now rid none y r h t = record {
  request = _;
  found = get-update now rid crashed y r h;
  ended = refl;
}
finish-HasEnded now rid (some result) y r h t = record {
  request = _;
  found = get-update now rid (fields_of result) y r h;
  ended = t result refl;
}

still : {rid : String} {y : System} → HasEnded rid y → HasEnded rid (clear_cancel rid y)
still h = record { request = h.request; found = h.found; ended = h.ended }

is_some-get :
    (rid : String) (y : System)
    → is_some (Dict.get rid y.store.requests) ≡ true
    → (r : Request) × (Dict.get rid y.store.requests ≡ some r)
is_some-get rid y h = elim (Option-cases (Dict.get rid y.store.requests)) [
  | inl e ↦ cc (rw e at h)
  | inr found ↦ found
]

-- A queued request has ended after its turn, whether it was cancelled, the runner raised, or the
-- runner gave a result, provided that a result's state is one of the ended ones and that no handler
-- takes the request out of the store meanwhile.
pub run_one_ends :
    (run : String → Option TurnResult) (meanwhile : System → System) (now : ℕ) (rid : String)
    (y : System) (r : Request)
    → Dict.get rid y.store.requests ≡ some r
    → is_queued r.state ≡ true
    → ((z : System)
        → is_some (Dict.get rid z.store.requests) ≡ true
        → is_some (Dict.get rid (meanwhile z).store.requests) ≡ true)
    → ((task : String) (result : TurnResult)
        → run task ≡ some result
        → is_terminal result.state ≡ true)
    → HasEnded rid (run_one run meanwhile now rid y)
unfolding run_one set_fields
run_one_ends run meanwhile now rid y r h q keeps ends =
    elim (Bool-cases (is_cancel_requested rid y)) [
      | inl c ↦
          subst (λ b. HasEnded rid (clear_cancel rid (proceed run meanwhile now rid b)))
            (sym (begin_cancelled now rid y r h q c))
            (record {
              request = _;
              found = get-update now rid (to_state RequestState.cancelled) y r h;
              ended = refl;
            })
      | inr c ↦
          let (task, begun) = begin_started now rid y r h q c in
          let started = update now rid (to_state RequestState.running) y in
          let there : is_some (Dict.get rid started.store.requests) ≡ true =
            ap is_some (get-update now rid (to_state RequestState.running) y r h) in
          let (r', held) = is_some-get rid (meanwhile started) (keeps started there) in
          subst (λ b. HasEnded rid (clear_cancel rid (proceed run meanwhile now rid b))) (sym begun)
            (still (finish-HasEnded now rid (run task) (meanwhile started) r' held (ends task)))
    ]
