-- ===== src/Store/Scan.antt =====
-- cagent/src/cagent_api/store.py: `scan_and_load`, which rebuilds the store from the evidence.
use pj_clusterintent.Prelude.{
  ℕ, String, Option, none, some, List, [], ◌∷◌, ◌++◌, leb, if◌then◌else◌,
}
use pj_clusterintent.Prelude.Dict
use pj_clusterintent.Prelude.Dict.{Dict, put}
use pj_clusterintent.Prelude.Sort.{sort}
use pj_clusterintent.Evidence.{
  RequestState, Evidence, Detail, StateEvent, RequestRecord, no_detail, is_terminal, append_event,
  read_request, read_latest_event, list_request_ids,
}
use pj_clusterintent.Store.Owner.{identity_from_record}
use pj_clusterintent.Store.Model.{Request, Session, Store}

-- The variables of the first loop.
pub record ScanState : Type 0 where
  pub evidence : Evidence
  pub requests : Dict Request
  pub by_session : Dict (List Request)
  pub newly_interrupted : List String

abbrev pub state_of : Option StateEvent → RequestState
state_of none = RequestState.queued
state_of (some latest) = latest.state

abbrev pub detail_or_empty : Option StateEvent → Detail
detail_or_empty none = no_detail
detail_or_empty (some latest) = latest.detail

abbrev pub ts_or : ℕ → Option StateEvent → ℕ
ts_or created_at none = created_at
ts_or created_at (some latest) = latest.ts

abbrev pub settled : RequestState → RequestState
settled state = if is_terminal state then state else RequestState.interrupted

-- The `Request` that is built from a record and its latest event.
unfoldable pub loaded : RequestRecord → Option StateEvent → Request
loaded r latest = record {
  request_id = r.request_id;
  session_id = r.session_id;
  identity = identity_from_record r.identity;
  message = r.message;
  state = settled (state_of latest);
  created_at = r.created_at;
  updated_at = ts_or r.created_at latest;
  response = (detail_or_empty latest).response;
  error = (detail_or_empty latest).error;
  cost_usd = (detail_or_empty latest).cost_usd;
  backend = (detail_or_empty latest).backend;
}

abbrev pub or_nil : Option (List Request) → List Request
or_nil none = []
or_nil (some rs) = rs

-- One round of the first loop, on the record that was read.
unfoldable pub load_record : (now : ℕ) → String → RequestRecord → ScanState → ScanState
unfolding loaded
load_record now request_id r st =
    let latest = read_latest_event request_id st.evidence in
    let request = loaded r latest in
    let known = is_terminal (state_of latest) in
    record {
      evidence =
          if known
          then st.evidence
          else append_event now request_id RequestState.interrupted no_detail st.evidence;
      requests = put request_id request st.requests;
      by_session =
          put request.session_id
            (or_nil (Dict.get request.session_id st.by_session) ++ request ∷ []) st.by_session;
      newly_interrupted =
          if known then st.newly_interrupted else st.newly_interrupted ++ request_id ∷ [];
    }

-- `none` is the FileNotFoundError of `read_request`.
unfoldable pub scan_ids : (now : ℕ) → List String → ScanState → Option ScanState
unfolding load_record
scan_ids now [] st = some st
scan_ids now (request_id ∷ ids) st = elim (read_request request_id st.evidence) [
  | none ↦ none
  | some r ↦ scan_ids now ids (load_record now request_id r st)
]

-- One round of the second loop. `requests[0]` of an empty list, which the first loop never makes,
-- adds no session.
unfoldable pub add_session : String → List Request → Dict Session → Dict Session
add_session session_id requests sessions =
    elim (sort (λ a b. leb a.created_at b.created_at) requests) [
      | [] ↦ sessions
      | first ∷ rest ↦
          put session_id
            (record {
              session_id = session_id;
              identity = first.identity;
              created_at = first.created_at;
              request_ids = request_ids_of (first ∷ rest);
            })
            sessions
    ]
  where
    request_ids_of : List Request → List String
    request_ids_of [] = []
    request_ids_of (r ∷ rs) = r.request_id ∷ request_ids_of rs

unfoldable pub add_sessions : Dict (List Request) → Dict Session → Dict Session
unfolding add_session
add_sessions [] sessions = sessions
add_sessions ((session_id, requests) ∷ rest) sessions =
    add_sessions rest (add_session session_id requests sessions)

abbrev pub scan_start : Evidence → ScanState
scan_start evidence = record {
  evidence = evidence;
  requests = [];
  by_session = [];
  newly_interrupted = [];
}

abbrev pub store_of : ScanState → Store × List String
store_of st = (
  record {
    requests = st.requests;
    sessions = add_sessions st.by_session [];
    evidence = some st.evidence;
  },
  st.newly_interrupted,
)

-- The store and the ids that this call has interrupted; `none` if it raises.
unfoldable pub scan_and_load : (now : ℕ) → Evidence → Option (Store × List String)
unfolding scan_ids add_sessions
scan_and_load now evidence = elim (scan_ids now (list_request_ids evidence) (scan_start evidence)) [
  | none ↦ none
  | some st ↦ some (store_of st)
]
