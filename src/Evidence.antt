-- ===== src/Evidence.antt =====
-- cagent/src/cagent_api/evidence.py: one directory for each request, with the record written at
-- receipt and the log of its state transitions. JSON text on disk is the value that it encodes.
pub mod Console
pub mod Laws
use Prim.Native.String.{compare}
use Prim.Native.Nat.{Ordering}
use pj_clusterintent.Prelude.{
  ℕ, String, Bool, true, false, Option, none, some, List, [], ◌∷◌, ◌++◌, if◌then◌else◌, is_some,
}
use pj_clusterintent.Prelude.Dict
use pj_clusterintent.Prelude.Dict.{Dict, put}
use pj_clusterintent.Prelude.Sort.{sort}

-- The words of `VALID_STATES`.
pub data RequestState : Type 0 where
  queued running completed failed cancelled interrupted : RequestState

-- `TERMINAL_STATES`, of this module and of store.py.
abbrev pub is_terminal : RequestState → Bool
is_terminal RequestState.queued = false
is_terminal RequestState.running = false
is_terminal _ = true

pub record ErrorInfo : Type 0 where
  pub code : String
  pub message : String

pub record Backend : Type 0 where
  pub harness : String
  pub provider : String
  pub model : String
  pub role : String
  pub profile : String

-- The `detail` object of an event; a key that is left out is `none`, as `detail.get` reads it.
pub record Detail : Type 0 where
  pub response : Option String
  pub error : Option ErrorInfo
  pub cost_usd : Option ℕ
  pub backend : Option Backend

abbrev pub no_detail : Detail
no_detail = record { response = none; error = none; cost_usd = none; backend = none }

pub record StateEvent : Type 0 where
  pub ts : ℕ
  pub state : RequestState
  pub detail : Detail

-- request.json
pub record RequestRecord : Type 0 where
  pub request_id : String
  pub session_id : String
  pub identity : Dict (Option String)
  pub message : String
  pub created_at : ℕ

-- `<evidence_dir>/<request_id>/`; a missing events.jsonl reads as an empty one.
pub record RequestDir : Type 0 where
  pub request_json : Option RequestRecord
  pub events : List StateEvent

abbrev pub Evidence : Type 0
Evidence = Dict RequestDir

abbrev pub empty_dir : RequestDir
empty_dir = record { request_json = none; events = [] }

-- `mkdir(parents=True, exist_ok=True)`
abbrev pub or_empty : Option RequestDir → RequestDir
or_empty none = empty_dir
or_empty (some d) = d

unfoldable pub dir : String → Evidence → RequestDir
dir request_id evidence = or_empty (Dict.get request_id evidence)

unfoldable pub append_event : ℕ → String → RequestState → Detail → Evidence → Evidence
unfolding dir
append_event now request_id state detail evidence =
    let d = dir request_id evidence in
    put request_id
      (record d { events = d.events ++ (record { ts = now; state = state; detail = detail }) ∷ [] })
      evidence

unfoldable pub record_created : ℕ → RequestRecord → Evidence → Evidence
unfolding dir
record_created now r evidence =
    let d = dir r.request_id evidence in
    append_event now r.request_id RequestState.queued no_detail
      (put r.request_id (record d { request_json = some r }) evidence)

-- `none` is the FileNotFoundError of `read_text`.
unfoldable pub read_request : String → Evidence → Option RequestRecord
read_request request_id evidence = elim (Dict.get request_id evidence) [
  | none ↦ none
  | some d ↦ d.request_json
]

-- The last line that is not blank.
abbrev pub latest_of : Option StateEvent → List StateEvent → Option StateEvent
latest_of latest [] = latest
latest_of latest (event ∷ events) = latest_of (some event) events

unfoldable pub read_latest_event : String → Evidence → Option StateEvent
read_latest_event request_id evidence = elim (Dict.get request_id evidence) [
  | none ↦ none
  | some d ↦ latest_of none d.events
]

-- The order of `sorted` on names.
abbrev pub name_le : String → String → Bool
name_le a b = elim (compare a b) [ Ordering.gt ↦ false | _ ↦ true ]

-- The directories that hold a request.json.
unfoldable pub recorded_ids : Evidence → List String
recorded_ids [] = []
recorded_ids ((name, d) ∷ rest) =
    if is_some d.request_json then name ∷ recorded_ids rest else recorded_ids rest

unfoldable pub list_request_ids : Evidence → List String
unfolding recorded_ids
list_request_ids evidence = sort name_le (recorded_ids evidence)
