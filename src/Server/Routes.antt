-- ===== src/Server/Routes.antt =====
-- The routes of server.py. A path is cut at its slashes; the `[^/]+` of a route is a segment that is not empty.
use Prim.Native.String
use Prim.Native.Char.{code}
use pj_clusterintent.Prelude.{
  String, Bool, false, ◌&&◌, List, [], ◌∷◌, ◌==◌, str_eq, if◌then◌else◌, ◌≡◌, refl,
}

-- A listener: the window, or another one that serves the page or does not.
pub data Door : Type 0 where
  window : Door
  api : (serve_ui : Bool) → Door

pub data Route : Type 0 where
  no_route create_request create_window_request list_sessions serve_guide healthz serve_llms_txt
        ui_root :
      Route
  continue_session cancel_request get_request list_session_requests : String → Route

-- `path.split("?", 1)[0]`
unfoldable pub before_query : String → String
before_query String.[] = ""
before_query (String.◌∷◌ c s) =
    let rest = before_query s in if code c == 63 then "" else String.◌∷◌ c rest

abbrev pub put_char : String → List String → List String
put_char c [] = c ∷ []
put_char c (w ∷ ws) = String.◌++◌ c w ∷ ws

unfoldable pub segments : String → List String
segments String.[] = "" ∷ []
segments (String.◌∷◌ c s) =
    let rest = segments s in if code c == 47 then "" ∷ rest else put_char (String.◌∷◌ c "") rest

-- The routes of more than one listener.
pub data Shape : Type 0 where
  root other : Shape
  name : String → Shape
  item : String → String → Shape
  action : String → String → String → Shape

abbrev full : String → Shape → Shape
full id shape = if str_eq id "" then Shape.other else shape

unfoldable pub shape_of : List String → Shape
shape_of (slash ∷ a ∷ []) =
    if str_eq slash "" then (if str_eq a "" then Shape.root else Shape.name a) else Shape.other
shape_of (slash ∷ a ∷ id ∷ []) = if str_eq slash "" then full id (Shape.item a id) else Shape.other
shape_of (slash ∷ a ∷ id ∷ b ∷ []) =
    if str_eq slash "" then full id (Shape.action a id b) else Shape.other
shape_of _ = Shape.other

abbrev pub shape : String → Shape
shape path = shape_of (segments (before_query path))

abbrev pub post_window : Shape → Route
post_window (Shape.name a) =
    if str_eq a "window" then Route.create_window_request else Route.no_route
post_window _ = Route.no_route

abbrev pub post_api : Shape → Route
post_api (Shape.name a) = if str_eq a "requests" then Route.create_request else Route.no_route
post_api (Shape.action a id b) =
    if str_eq a "sessions" && str_eq b "requests"
    then Route.continue_session id
    else if str_eq a "requests" && str_eq b "cancel"
    then Route.cancel_request id
    else Route.no_route
post_api _ = Route.no_route

unfoldable pub dispatch_post : Door → String → Route
unfolding shape_of segments before_query
dispatch_post Door.window path = post_window (shape path)
dispatch_post (Door.api serve_ui) path = post_api (shape path)

abbrev pub get_window : Shape → Route
get_window (Shape.name a) =
    if str_eq a "guide"
    then Route.serve_guide
    else if str_eq a "healthz"
    then Route.healthz
    else Route.no_route
get_window (Shape.item a id) = if str_eq a "requests" then Route.get_request id else Route.no_route
get_window _ = Route.no_route

abbrev pub get_api : Bool → Shape → Route
get_api serve_ui Shape.root = if serve_ui then Route.ui_root else Route.no_route
get_api serve_ui (Shape.name a) =
    if str_eq a "llms.txt"
    then Route.serve_llms_txt
    else if str_eq a "sessions"
    then Route.list_sessions
    else Route.no_route
get_api serve_ui (Shape.item a id) =
    if str_eq a "requests" then Route.get_request id else Route.no_route
get_api serve_ui (Shape.action a id b) =
    if str_eq a "sessions" && str_eq b "requests"
    then Route.list_session_requests id
    else Route.no_route
get_api serve_ui Shape.other = Route.no_route

unfoldable pub dispatch_get : Door → String → Route
unfolding shape_of segments before_query
dispatch_get Door.window path = get_window (shape path)
dispatch_get (Door.api serve_ui) path = get_api serve_ui (shape path)

test_cancel :
    dispatch_post (Door.api false) "/requests/req_1/cancel?x=1" ≡ Route.cancel_request "req_1"
unfolding dispatch_post
test_cancel = refl

test_window : dispatch_get Door.window "/sessions" ≡ Route.no_route
unfolding dispatch_get
test_window = refl
