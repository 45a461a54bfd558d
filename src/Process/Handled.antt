-- ===== src/Process/Handled.antt =====
-- What one POST does to the requests of the store.
use Prim.Native.String
use pj_clusterintent.Prelude.{
  ℕ, String, Bool, true, false, Option, none, some, [], ◌∷◌, ◌++◌, if◌then◌else◌, ◌≡◌, refl, ap,
  ◌⊎◌, inl, inr, Bool-cases, Option-cases, str_eq,
}
use pj_clusterintent.Prelude.Dict
use pj_clusterintent.Prelude.Dict.{Dict}
use pj_clusterintent.Prelude.Result.{ok, err, Result-cases}
use pj_clusterintent.Evidence.{RequestState, is_terminal}
use pj_clusterintent.Store.Owner.{Identity, owner_key}
use pj_clusterintent.Store.Model.{Request, Session, StoreError, not_found, not_owner, Fields}
use pj_clusterintent.Store.{
  create_session_and_request, continue_session, new_request_locked, update_request, set_fields,
  get_request,
}
use pj_clusterintent.Worker.{
  System, is_queued, to_state, request_cancel, is_cancel_requested, update,
}
use pj_clusterintent.Server.Routes.{Door, Route, dispatch_post}
use pj_clusterintent.Server.Laws.{handle_route_reads, IsRead}
use pj_clusterintent.Server.{
  Call, start_request, create_request, create_window_request, continue_session_handler,
  cancel_request_handler, handle_route, do_post, message_of, window_text_of, owns,
}

abbrev pub is_running : RequestState → Bool
is_running RequestState.running = true
is_running _ = false

-- The request is not there yet, or waits.
abbrev pub is_unbegun : Option Request → Bool
is_unbegun none = true
is_unbegun (some r) = is_queued r.state

-- Either no request has changed, or one that no worker has begun is written, and does not run.
abbrev pub IsHandled : Dict Request → Dict Request → Type 0
IsHandled before after =
    (after ≡ before)
    ⊎ ((rid : String) × (r : Request) × (after ≡ Dict.put rid r before)
        × (is_unbegun (Dict.get rid before) ≡ true)
        × (is_running r.state ≡ false))

-- The same with the queue: a request that is written and waits has been put behind the others.
abbrev pub IsHandledIn : System → System → Type 0
IsHandledIn y z =
    ((z.store.requests ≡ y.store.requests) × (z.queue ≡ y.queue))
    ⊎ ((rid : String) × (r : Request) × (z.store.requests ≡ Dict.put rid r y.store.requests)
        × (is_unbegun (Dict.get rid y.store.requests) ≡ true)
        × (is_running r.state ≡ false)
        × (z.queue ≡ (if is_queued r.state then y.queue ++ rid ∷ [] else y.queue)))

pub IsHandledIn-IsHandled :
    (y z : System) → IsHandledIn y z → IsHandled y.store.requests z.store.requests
IsHandledIn-IsHandled y z (inl (same, _)) = inl same
IsHandledIn-IsHandled y z (inr (rid, r, put, unbegun, quiet, _)) = inr (rid, r, put, unbegun, quiet)

module _ (c : Call) (y : System)
    (fresh : Dict.get (String.◌++◌ "req_" c.hex) y.store.requests ≡ none) where
  unbegun : is_unbegun (Dict.get (String.◌++◌ "req_" c.hex) y.store.requests) ≡ true
  unbegun = rw fresh

  start_request-IsHandledIn : (message : String) → IsHandledIn y (start_request c message y).1
  unfolding start_request create_session_and_request new_request_locked
  start_request-IsHandledIn message = elim (Result-cases c.caller) [
    | inl (e, p) ↦ rw (start_request, p) (inl (refl, refl))
    | inr (i, p) ↦ rw (start_request, p) (inr (_, _, refl, unbegun, refl, refl))
  ]

  create_request-IsHandledIn : IsHandledIn y (create_request c y).1
  unfolding create_request
  create_request-IsHandledIn = elim (Result-cases (message_of c.body)) [
    | inl (e, p) ↦ rw (create_request, p) (inl (refl, refl))
    | inr (message, p) ↦ rw (create_request, p) (start_request-IsHandledIn message)
  ]

  create_window_request-IsHandledIn : IsHandledIn y (create_window_request c y).1
  unfolding create_window_request
  create_window_request-IsHandledIn = elim (Result-cases (window_text_of c.body)) [
    | inl (e, p) ↦ rw (create_window_request, p) (inl (refl, refl))
    | inr (text, p) ↦ rw (create_window_request, p) (start_request-IsHandledIn text)
  ]

  continue_session_cases :
      (sid message : String) (i : Identity)
      → let continued = continue_session c.now c.hex sid i message y.store in
        ((e : StoreError) × (continued.0 ≡ err e) × (continued.1 ≡ y.store))
        ⊎ ((session : Session) × (continued.0
              ≡ ok (new_request_locked c.now c.hex session i message y.store).0)
            × (continued.1 ≡ (new_request_locked c.now c.hex session i message y.store).1))
  unfolding continue_session
  continue_session_cases sid message i = elim (Option-cases (Dict.get sid y.store.sessions)) [
    | inl e ↦ inl (
      not_found (String.◌++◌ "session not found: " sid),
      rw (continue_session, e) refl,
      rw (continue_session, e) refl,
    )
    | inr (session, e) ↦ elim (Bool-cases (str_eq (owner_key session.identity) (owner_key i))) [
      | inl o ↦ inr (session, rw (continue_session, e, o) refl, rw (continue_session, e, o) refl)
      | inr o ↦ inl (not_owner, rw (continue_session, e, o) refl, rw (continue_session, e, o) refl)
    ]
  ]

  continue_session_handler-IsHandledIn :
      (sid : String) → IsHandledIn y (continue_session_handler sid c y).1
  unfolding continue_session_handler new_request_locked
  continue_session_handler-IsHandledIn sid = elim (Result-cases c.caller) [
    | inl (e, p) ↦ rw (continue_session_handler, p) (inl (refl, refl))
    | inr (i, p) ↦ elim (Result-cases (message_of c.body)) [
      | inl (e, q) ↦ rw (continue_session_handler, p, q) (inl (refl, refl))
      | inr (message, q) ↦ elim (continue_session_cases sid message i) [
        | inl (e, o, o') ↦ rw (continue_session_handler, p, q, o, o') (inl (refl, refl))
        | inr (session, o, o') ↦
            rw (continue_session_handler, p, q, o, o') (inr (_, _, refl, unbegun, refl, refl))
      ]
    ]
  ]

pub requests-update :
    (now : ℕ) (rid : String) (fields : Fields) (y : System) (r : Request)
    → Dict.get rid y.store.requests ≡ some r
    → (update now rid fields y).store.requests
      ≡ Dict.put rid (set_fields now fields r) y.store.requests
unfolding update_request
requests-update now rid fields y r h = rw (h, update_request)

flagged : (rid : String) (y : System) → IsHandledIn y (request_cancel rid y)
flagged rid y = elim (Bool-cases (is_cancel_requested rid y)) [
  | inl f ↦ rw f (inl (refl, refl))
  | inr f ↦ rw f (inl (refl, refl))
]

read :
    (route : Route) (c : Call) (y : System)
    → IsRead route
    → IsHandledIn y (handle_route route c y).1
read route c y h = inl (
  ap (λ z. z.store.requests) (handle_route_reads route c y h),
  ap (λ z. z.queue) (handle_route_reads route c y h),
)

cancel_request_handler-IsHandledIn :
    (rid : String) (c : Call) (y : System) → IsHandledIn y (cancel_request_handler rid c y).1
unfolding cancel_request_handler get_request set_fields
cancel_request_handler-IsHandledIn rid c y = elim (Result-cases c.caller) [
  | inl (e, p) ↦ rw (cancel_request_handler, p) (inl (refl, refl))
  | inr (i, p) ↦ elim (Option-cases (Dict.get rid y.store.requests)) [
    | inl e ↦ rw (cancel_request_handler, p, e) (inl (refl, refl))
    | inr (r, e) ↦ elim (Bool-cases (owns i r.identity)) [
      | inr o ↦ rw (cancel_request_handler, p, e, o) (inl (refl, refl))
      | inl o ↦ elim (Bool-cases (is_terminal r.state)) [
        | inl t ↦ rw (cancel_request_handler, p, e, o, t) (inl (refl, refl))
        | inr t ↦ elim (Bool-cases (is_queued r.state)) [
          | inl q ↦
              rw (cancel_request_handler, p, e, o, t, q)
                (inr (
                  rid,
                  _,
                  requests-update c.now rid (to_state RequestState.cancelled) y r e,
                  rw e q,
                  refl,
                  refl,
                ))
          | inr q ↦ rw (cancel_request_handler, p, e, o, t, q) (flagged rid y)
        ]
      ]
    ]
  ]
]

handle_route-IsHandledIn :
    (route : Route) (c : Call) (y : System)
    → Dict.get (String.◌++◌ "req_" c.hex) y.store.requests ≡ none
    → IsHandledIn y (handle_route route c y).1
unfolding handle_route
handle_route-IsHandledIn Route.create_request c y fresh = create_request-IsHandledIn c y fresh
handle_route-IsHandledIn Route.create_window_request c y fresh =
    create_window_request-IsHandledIn c y fresh
handle_route-IsHandledIn (Route.continue_session sid) c y fresh =
    continue_session_handler-IsHandledIn c y fresh sid
handle_route-IsHandledIn (Route.cancel_request rid) c y fresh =
    cancel_request_handler-IsHandledIn rid c y
handle_route-IsHandledIn Route.no_route c y fresh = inl (refl, refl)
handle_route-IsHandledIn Route.list_sessions c y fresh = read Route.list_sessions c y tt
handle_route-IsHandledIn Route.serve_guide c y fresh = inl (refl, refl)
handle_route-IsHandledIn Route.healthz c y fresh = inl (refl, refl)
handle_route-IsHandledIn Route.serve_llms_txt c y fresh = inl (refl, refl)
handle_route-IsHandledIn Route.ui_root c y fresh = inl (refl, refl)
handle_route-IsHandledIn (Route.get_request rid) c y fresh = read (Route.get_request rid) c y tt
handle_route-IsHandledIn (Route.list_session_requests sid) c y fresh =
    read (Route.list_session_requests sid) c y tt

pub do_post-IsHandledIn :
    (door : Door) (path : String) (c : Call) (y : System)
    → Dict.get (String.◌++◌ "req_" c.hex) y.store.requests ≡ none
    → IsHandledIn y (do_post door path c y).1
unfolding do_post
do_post-IsHandledIn door path c y fresh =
    handle_route-IsHandledIn (dispatch_post door path) c y fresh
