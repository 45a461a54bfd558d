-- ===== src/Server.antt =====
-- cagent/src/cagent_api/server.py: the routes and the handlers, over the store and the worker's queue.
-- What the HTTP library gives (the path, the parsed body), the authenticator's answer, the clock and
-- the ids that uuid4 gives are arguments. A JSON value is kept as far as the handlers look at it.
pub mod Routes
pub mod Response
pub mod Laws
pub mod Privacy
pub mod Waiting
pub mod Queue
use Prim.Native.String
use Prim.Native.Char.{code}
use pj_clusterintent.Prelude.{
  ℕ, String, Bool, true, false, not, ◌&&◌, ◌||◌, leb, Option, none, some, List, [], ◌∷◌, str_eq,
  if◌then◌else◌, is_some,
}
use pj_clusterintent.Prelude.Dict
use pj_clusterintent.Prelude.Dict.{Dict}
use pj_clusterintent.Prelude.Lines.{strip}
use pj_clusterintent.Prelude.Result.{Result, ok, err, ◌>>=◌}
use pj_clusterintent.Evidence.{RequestState, is_terminal}
use pj_clusterintent.Store.Owner.{Identity, owner_key}
use pj_clusterintent.Store.Model.{Request, Session, Store, StoreError}
use pj_clusterintent.Store.{
  create_session_and_request, continue_session, get_request, list_sessions, list_session_requests,
  update_request,
}
use pj_clusterintent.Auth.{AuthError}
use pj_clusterintent.Worker.{System, enqueue, request_cancel, to_state, is_queued}
use pj_clusterintent.Server.Routes.{Route, Door, dispatch_post, dispatch_get}

pub record ApiError : Type 0 where
  pub status : ℕ
  pub code : String
  pub request_id : Option String

abbrev api_error : ℕ → String → Option String → ApiError
api_error status code request_id = record { status = status; code = code; request_id = request_id }

pub data Json : Type 0 where
  string : String → Json
  other : Json

-- What `_body` finds: nothing, text that is no JSON, JSON that is no object, or an object.
pub data Body : Type 0 where
  empty invalid not_an_object : Body
  object : Dict Json → Body

-- What is fixed while one request is answered.
pub record Call : Type 0 where
  pub caller : Result AuthError Identity
  pub body : Body
  pub now : ℕ
  pub hex : String
  pub session_id : String

-- What is written back with status 200 or 202.
pub data Answer : Type 0 where
  accepted : Request → Answer
  request : Request → Answer
  sessions : List Session → Answer
  requests : List Request → Answer
  healthy guide llms_txt ui : Answer

abbrev pub identity : Call → Result ApiError Identity
identity c = elim c.caller [ err e ↦ err (api_error e.status e.code none) | ok i ↦ ok i ]

-- `body.get(key)`; a body that is no object has no `get`, which ends as an internal error.
unfoldable pub body_get : String → Body → Result ApiError (Option Json)
body_get key Body.empty = ok none
body_get key Body.invalid = err (api_error 400 "bad_request" none)
body_get key Body.not_an_object = err (api_error 500 "internal_error" none)
body_get key (Body.object fields) = ok (Dict.get key fields)

abbrev bad_request : ApiError
bad_request = api_error 400 "bad_request" none

unfoldable pub message_of : Body → Result ApiError String
unfolding body_get
message_of body = body_get "message" body >>= λ value. elim value [
  | none ↦ err bad_request
  | some Json.other ↦ err bad_request
  | some (Json.string message) ↦ if str_eq message "" then err bad_request else ok message
]

unfoldable pub window_text_of : Body → Result ApiError String
unfolding body_get strip
window_text_of body = body_get "text" body >>= λ value. elim value [
  | none ↦ err bad_request
  | some Json.other ↦ err bad_request
  | some (Json.string text) ↦ if str_eq (strip text) "" then err bad_request else ok text
]

abbrev pub Reply : Type 0
Reply = Result ApiError Answer × System

unfoldable pub start_request : Call → String → System → Reply
start_request c message y = elim (identity c) [
  | err e ↦ (err e, y)
  | ok i ↦
      let (r, s) = create_session_and_request c.now c.hex c.session_id i message y.store in
      (ok (Answer.accepted r), enqueue r.request_id (record y { store = s }))
]

unfoldable pub create_request : Call → System → Reply
unfolding message_of start_request
create_request c y = elim (message_of c.body) [
  | err e ↦ (err e, y)
  | ok message ↦ start_request c message y
]

unfoldable pub create_window_request : Call → System → Reply
unfolding window_text_of start_request
create_window_request c y = elim (window_text_of c.body) [
  | err e ↦ (err e, y)
  | ok text ↦ start_request c text y
]

abbrev of_store_error : Option String → StoreError → ApiError
of_store_error request_id (StoreError.not_found what) = api_error 404 "not_found" request_id
of_store_error request_id StoreError.not_owner = api_error 403 "forbidden" request_id
of_store_error request_id (StoreError.key_error rid) = api_error 500 "internal_error" none

unfoldable pub continue_session_handler : String → Call → System → Reply
unfolding message_of
continue_session_handler session_id c y = elim (identity c) [
  | err e ↦ (err e, y)
  | ok i ↦ elim (message_of c.body) [
    | err e ↦ (err e, y)
    | ok message ↦
        let (created, s) = continue_session c.now c.hex session_id i message y.store in
        elim created [
          | err e ↦ (err (of_store_error none e), record y { store = s })
          | ok r ↦ (ok (Answer.accepted r), enqueue r.request_id (record y { store = s }))
        ]
  ]
]

abbrev pub is_human : Identity → Bool
is_human i = str_eq i.identity_class "human"

abbrev pub owns : Identity → Identity → Bool
owns caller owner = str_eq (owner_key owner) (owner_key caller)

abbrev not_owner : Option String → ApiError
not_owner request_id = api_error 403 "forbidden" request_id

unfoldable pub get_request_handler : String → Call → System → Reply
get_request_handler request_id c y = elim (identity c) [
  | err e ↦ (err e, y)
  | ok i ↦ elim (get_request request_id y.store) [
    | err e ↦ (err (of_store_error (some request_id) e), y)
    | ok r ↦
        if not (is_human i) && not (owns i r.identity)
        then (err (not_owner (some request_id)), y)
        else (ok (Answer.request r), y)
  ]
]

-- What is answered with the request that the store gives.
abbrev shown_request : String → Result StoreError Request → Result ApiError Answer
shown_request request_id (ok r) = ok (Answer.request r)
shown_request request_id (err e) = err (api_error 500 "internal_error" none)

unfoldable pub cancel_request_handler : String → Call → System → Reply
cancel_request_handler request_id c y = elim (identity c) [
  | err e ↦ (err e, y)
  | ok i ↦ elim (get_request request_id y.store) [
    | err e ↦ (err (of_store_error (some request_id) e), y)
    | ok r ↦
        if not (owns i r.identity)
        then (err (not_owner (some request_id)), y)
        else if is_terminal r.state
        then (ok (Answer.request r), y)
        else if is_queued r.state
        then (let (updated, s) =
              update_request c.now request_id (to_state RequestState.cancelled) y.store in
            (shown_request request_id updated, record y { store = s }))
        else (let y' = request_cancel request_id y in
            (shown_request request_id (get_request request_id y'.store), y'))
  ]
]

unfoldable pub owned_sessions : Identity → List Session → List Session
owned_sessions i [] = []
owned_sessions i (s ∷ ss) =
    let rest = owned_sessions i ss in if owns i s.identity then s ∷ rest else rest

unfoldable pub list_sessions_handler : Call → System → Reply
unfolding owned_sessions
list_sessions_handler c y = elim (identity c) [
  | err e ↦ (err e, y)
  | ok i ↦
      let all = list_sessions y.store in
      (ok (Answer.sessions (if is_human i then all else owned_sessions i all)), y)
]

abbrev pub first_is_foreign : Identity → List Request → Bool
first_is_foreign i [] = false
first_is_foreign i (r ∷ rs) = not (is_human i) && not (owns i r.identity)

unfoldable pub list_session_requests_handler : String → Call → System → Reply
list_session_requests_handler session_id c y = elim (identity c) [
  | err e ↦ (err e, y)
  | ok i ↦ elim (list_session_requests session_id y.store) [
    | err e ↦ (err (of_store_error none e), y)
    | ok rs ↦
        if first_is_foreign i rs then (err (not_owner none), y) else (ok (Answer.requests rs), y)
  ]
]

unfoldable pub handle_route : Route → Call → System → Reply
unfolding create_request
handle_route Route.no_route c y = (err (api_error 404 "not_found" none), y)
handle_route Route.create_request c y = create_request c y
handle_route Route.create_window_request c y = create_window_request c y
handle_route (Route.continue_session session_id) c y = continue_session_handler session_id c y
handle_route (Route.cancel_request request_id) c y = cancel_request_handler request_id c y
handle_route (Route.get_request request_id) c y = get_request_handler request_id c y
handle_route Route.list_sessions c y = list_sessions_handler c y
handle_route (Route.list_session_requests session_id) c y =
    list_session_requests_handler session_id c y
handle_route Route.serve_guide c y = (ok Answer.guide, y)
handle_route Route.healthz c y = (ok Answer.healthy, y)
handle_route Route.serve_llms_txt c y = (ok Answer.llms_txt, y)
handle_route Route.ui_root c y = (ok Answer.ui, y)

-- `do_POST` and `do_GET`
unfoldable pub do_post : Door → String → Call → System → Reply
unfolding handle_route
do_post door path c y = handle_route (dispatch_post door path) c y

unfoldable pub do_get : Door → String → Call → System → Reply
unfolding handle_route
do_get door path c y = handle_route (dispatch_get door path) c y
