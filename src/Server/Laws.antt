-- ===== src/Server/Laws.antt =====
-- What the handlers of server.py leave alone.
use pj_clusterintent.Prelude.{String, Bool, ◌≡◌, refl, ◌⊎◌, inl, inr, arith, Bool-cases, str_eq}
use pj_clusterintent.Prelude.Result.{err}
use pj_clusterintent.Store.{get_request, update_request, continue_session}
use pj_clusterintent.Worker.{System}
use pj_clusterintent.Server.Routes.{
  Route, Door, shape, Shape, dispatch_post, dispatch_get, get_window, get_api, post_window,
}
use pj_clusterintent.Server.{
  ApiError, Call, Reply, handle_route, do_get, do_post, start_request, create_request,
  create_window_request, continue_session_handler, get_request_handler, cancel_request_handler,
  list_sessions_handler, list_session_requests_handler,
}

-- The routes that GET can reach.
abbrev pub IsRead : Route → Type 0
IsRead Route.create_request = ⊥
IsRead Route.create_window_request = ⊥
IsRead (Route.continue_session sid) = ⊥
IsRead (Route.cancel_request rid) = ⊥
IsRead route = Unit

get_window-IsRead : (s : Shape) → IsRead (get_window s)
get_window-IsRead Shape.root = tt
get_window-IsRead Shape.other = tt
get_window-IsRead (Shape.name a) = ground arith
get_window-IsRead (Shape.item a id) = ground arith
get_window-IsRead (Shape.action a id b) = tt

get_api-IsRead : (ui : Bool) (s : Shape) → IsRead (get_api ui s)
get_api-IsRead ui Shape.root = ground arith
get_api-IsRead ui Shape.other = tt
get_api-IsRead ui (Shape.name a) = ground arith
get_api-IsRead ui (Shape.item a id) = ground arith
get_api-IsRead ui (Shape.action a id b) = ground arith

dispatch_get-IsRead : (door : Door) (path : String) → IsRead (dispatch_get door path)
unfolding dispatch_get
dispatch_get-IsRead Door.window path = get_window-IsRead (shape path)
dispatch_get-IsRead (Door.api ui) path = get_api-IsRead ui (shape path)

get_request_handler_reads :
    (rid : String) (c : Call) (y : System) → (get_request_handler rid c y).1 ≡ y
unfolding get_request_handler
get_request_handler_reads rid c y = ground arith

list_sessions_handler_reads : (c : Call) (y : System) → (list_sessions_handler c y).1 ≡ y
unfolding list_sessions_handler
list_sessions_handler_reads c y = ground arith

list_session_requests_handler_reads :
    (sid : String) (c : Call) (y : System) → (list_session_requests_handler sid c y).1 ≡ y
unfolding list_session_requests_handler
list_session_requests_handler_reads sid c y = ground arith

pub handle_route_reads :
    (route : Route) (c : Call) (y : System) → IsRead route → (handle_route route c y).1 ≡ y
unfolding handle_route
handle_route_reads Route.no_route c y h = refl
handle_route_reads Route.list_sessions c y h = list_sessions_handler_reads c y
handle_route_reads Route.serve_guide c y h = refl
handle_route_reads Route.healthz c y h = refl
handle_route_reads Route.serve_llms_txt c y h = refl
handle_route_reads Route.ui_root c y h = refl
handle_route_reads (Route.get_request rid) c y h = get_request_handler_reads rid c y
handle_route_reads (Route.list_session_requests sid) c y h =
    list_session_requests_handler_reads sid c y
handle_route_reads Route.create_request c y h = elim h [ ]
handle_route_reads Route.create_window_request c y h = elim h [ ]
handle_route_reads (Route.continue_session sid) c y h = elim h [ ]
handle_route_reads (Route.cancel_request rid) c y h = elim h [ ]

-- No GET, on either listener and on whatever path, changes the store, the queue or the flags.
do_get_changes_nothing :
    (door : Door) (path : String) (c : Call) (y : System) → (do_get door path c y).1 ≡ y
unfolding do_get
do_get_changes_nothing door path c y =
    handle_route_reads (dispatch_get door path) c y (dispatch_get-IsRead door path)

-- A call that raises leaves the store as it was.
abbrev Refused : Reply → System → Type 0
Refused reply y = (e : ApiError) → reply.0 ≡ err e → reply.1 ≡ y

start_request-Refused :
    (c : Call) (message : String) (y : System) → Refused (start_request c message y) y
unfolding start_request
start_request-Refused c message y e h = ground arith

create_request-Refused : (c : Call) (y : System) → Refused (create_request c y) y
unfolding create_request
create_request-Refused c y e h = ground (arith, start_request-Refused c)

create_window_request-Refused : (c : Call) (y : System) → Refused (create_window_request c y) y
unfolding create_window_request
create_window_request-Refused c y e h = ground (arith, start_request-Refused c)

continue_session_handler-Refused :
    (sid : String) (c : Call) (y : System) → Refused (continue_session_handler sid c y) y
unfolding continue_session_handler continue_session
continue_session_handler-Refused sid c y e h = ground arith

cancel_request_handler-Refused :
    (rid : String) (c : Call) (y : System) → Refused (cancel_request_handler rid c y) y
unfolding cancel_request_handler update_request get_request
cancel_request_handler-Refused rid c y e h = ground arith

handle_route-Refused : (route : Route) (c : Call) (y : System) → Refused (handle_route route c y) y
unfolding handle_route
handle_route-Refused Route.no_route c y e h = refl
handle_route-Refused Route.create_request c y e h = create_request-Refused c y e h
handle_route-Refused Route.create_window_request c y e h = create_window_request-Refused c y e h
handle_route-Refused (Route.continue_session sid) c y e h =
    continue_session_handler-Refused sid c y e h
handle_route-Refused (Route.cancel_request rid) c y e h = cancel_request_handler-Refused rid c y e h
handle_route-Refused Route.list_sessions c y e h = list_sessions_handler_reads c y
handle_route-Refused Route.serve_guide c y e h = refl
handle_route-Refused Route.healthz c y e h = refl
handle_route-Refused Route.serve_llms_txt c y e h = refl
handle_route-Refused Route.ui_root c y e h = refl
handle_route-Refused (Route.get_request rid) c y e h = get_request_handler_reads rid c y
handle_route-Refused (Route.list_session_requests sid) c y e h =
    list_session_requests_handler_reads sid c y

-- A POST that is answered with an error, whatever the error, has changed nothing.
pub do_post_refused :
    (door : Door) (path : String) (c : Call) (y : System) (e : ApiError)
    → (do_post door path c y).0 ≡ err e
    → (do_post door path c y).1 ≡ y
unfolding do_post
do_post_refused door path c y e h = handle_route-Refused (dispatch_post door path) c y e h

-- The routes of the window.
abbrev pub IsWindowRoute : Route → Type 0
IsWindowRoute route =
    (route ≡ Route.no_route)
    ⊎ ((route ≡ Route.create_window_request)
        ⊎ ((route ≡ Route.serve_guide)
            ⊎ ((route ≡ Route.healthz) ⊎ ((rid : String) × (route ≡ Route.get_request rid)))))

post_window-IsWindowRoute : (s : Shape) → IsWindowRoute (post_window s)
post_window-IsWindowRoute Shape.root = inl refl
post_window-IsWindowRoute Shape.other = inl refl
post_window-IsWindowRoute (Shape.name a) = elim (Bool-cases (str_eq a "window")) [
  | inl e ↦ rw e (inr (inl refl))
  | inr e ↦ rw e (inl refl)
]
post_window-IsWindowRoute (Shape.item a id) = inl refl
post_window-IsWindowRoute (Shape.action a id b) = inl refl

get_window-IsWindowRoute : (s : Shape) → IsWindowRoute (get_window s)
get_window-IsWindowRoute Shape.root = inl refl
get_window-IsWindowRoute Shape.other = inl refl
get_window-IsWindowRoute (Shape.name a) = elim (Bool-cases (str_eq a "guide")) [
  | inl e ↦ rw e (inr (inr (inl refl)))
  | inr e ↦ elim (Bool-cases (str_eq a "healthz")) [
    | inl f ↦ rw (e, f) (inr (inr (inr (inl refl))))
    | inr f ↦ rw (e, f) (inl refl)
  ]
]
get_window-IsWindowRoute (Shape.item a id) = elim (Bool-cases (str_eq a "requests")) [
  | inl e ↦ rw e (inr (inr (inr (inr (id, refl)))))
  | inr e ↦ rw e (inl refl)
]
get_window-IsWindowRoute (Shape.action a id b) = inl refl

-- The window mounts one way in and three reads, whatever the path.
window_is_single :
    (path : String)
    → IsWindowRoute (dispatch_post Door.window path) × IsWindowRoute (dispatch_get Door.window path)
unfolding dispatch_post dispatch_get
window_is_single path =
    (post_window-IsWindowRoute (shape path), get_window-IsWindowRoute (shape path))
