-- ===== src/Server/Queue.antt =====
-- The queued requests: do_POST of server.py and the worker that begins one.
use pj_clusterintent.Prelude.{
  ℕ, String, false, some, List, ◌∷◌, ◌≡◌, refl, sym, ap, ◌∙◌, inl, inr, Bool-cases, some_inj,
}
use mathlib.Core.Path.{subst}
use pj_clusterintent.Prelude.Dict
use pj_clusterintent.Prelude.Dict.{get-put}
use pj_clusterintent.Evidence.{RequestState}
use pj_clusterintent.Store.Model.{Request, Store}
use pj_clusterintent.Store.{set_fields}
use pj_clusterintent.Worker.{System, to_state, is_queued, update, begin, is_cancel_requested}
use pj_clusterintent.Server.Routes.{Door, Route, dispatch_post}
use pj_clusterintent.Worker.Laws.{begin_settled, begin_cancelled, begin_started, get-update}
use pj_clusterintent.Server.Laws.{handle_route_reads}
use pj_clusterintent.Server.{Call, handle_route, do_post}
use pj_clusterintent.Server.Waiting.{
  IsWaiting, false_is_not_true, update-IsWaiting, IsWaitingIn, create_request-IsWaiting,
  create_window_request-IsWaiting, continue_session_handler-IsWaiting,
  cancel_request_handler-IsWaiting,
}

handle_route-IsWaiting :
    (route : Route) (c : Call) (y : System) → IsWaitingIn y → IsWaitingIn (handle_route route c y).1
unfolding handle_route
handle_route-IsWaiting Route.no_route c y w = w
handle_route-IsWaiting Route.create_request c y w = create_request-IsWaiting c y w
handle_route-IsWaiting Route.create_window_request c y w = create_window_request-IsWaiting c y w
handle_route-IsWaiting (Route.continue_session sid) c y w =
    continue_session_handler-IsWaiting sid c y w
handle_route-IsWaiting (Route.cancel_request rid) c y w = cancel_request_handler-IsWaiting rid c y w
handle_route-IsWaiting Route.list_sessions c y w =
    subst IsWaitingIn (sym (handle_route_reads Route.list_sessions c y tt)) w
handle_route-IsWaiting Route.serve_guide c y w = w
handle_route-IsWaiting Route.healthz c y w = w
handle_route-IsWaiting Route.serve_llms_txt c y w = w
handle_route-IsWaiting Route.ui_root c y w = w
handle_route-IsWaiting (Route.get_request rid) c y w =
    subst IsWaitingIn (sym (handle_route_reads (Route.get_request rid) c y tt)) w
handle_route-IsWaiting (Route.list_session_requests sid) c y w =
    subst IsWaitingIn (sym (handle_route_reads (Route.list_session_requests sid) c y tt)) w

-- If every queued request of the store stands in the queue, then so it does after a POST, whatever
-- its path and its answer.
pub do_post_forgets_nothing :
    (door : Door) (path : String) (c : Call) (y : System)
    → IsWaitingIn y
    → IsWaitingIn (do_post door path c y).1
unfolding do_post
do_post_forgets_nothing door path c y w = handle_route-IsWaiting (dispatch_post door path) c y w

head_gone :
    (rid : String) (rest : List String) (s : Store) (x : Request)
    → Dict.get rid s.requests ≡ some x
    → is_queued x.state ≡ false
    → IsWaiting s (rid ∷ rest)
    → IsWaiting s rest
head_gone rid rest s x found n w j r h queued = elim (w j r h queued) [
  | inr m ↦ m
  | inl e ↦
      let same : r ≡ x = some_inj (sym h ∙ ap (λ k. Dict.get k s.requests) e ∙ found) in
      elim (false_is_not_true (sym n ∙ ap (λ z. is_queued z.state) (sym same) ∙ queued)) [ ]
]

-- If the request at the head of the queue is in the store and every queued request stands in the
-- queue, then once the worker has begun the head, every queued request stands in the rest.
pub begin_takes_the_head :
    (now : ℕ) (rid : String) (rest : List String) (y : System) (r : Request)
    → Dict.get rid y.store.requests ≡ some r
    → IsWaiting y.store (rid ∷ rest)
    → IsWaiting (begin now rid y).1.store rest
unfolding set_fields
begin_takes_the_head now rid rest y r found w = elim (Bool-cases (is_queued r.state)) [
  | inr n ↦
      subst (λ b. IsWaiting b.1.store rest) (sym (begin_settled now rid y r found n))
        (head_gone rid rest y.store r found n w)
  | inl q ↦ elim (Bool-cases (is_cancel_requested rid y)) [
    | inl c ↦
        subst (λ b. IsWaiting b.1.store rest) (sym (begin_cancelled now rid y r found q c))
          (updated RequestState.cancelled refl)
    | inr c ↦
        subst (λ b. IsWaiting b.1.store rest) (sym (begin_started now rid y r found q c).1)
          (updated RequestState.running refl)
  ]
]
  where
    updated :
        (state : RequestState)
        → is_queued state ≡ false
        → IsWaiting (update now rid (to_state state) y).store rest
    updated state n =
        head_gone rid rest (update now rid (to_state state) y).store
          (set_fields now (to_state state) r) (get-update now rid (to_state state) y r found) n
          (update-IsWaiting now rid state y.store (rid ∷ rest) n w)
