-- ===== src/Store.antt =====
-- cagent/src/cagent_api/store.py: the methods of `Store`. Each returns its result beside the store
-- that it leaves; what it wrote before it raised stays written.
pub mod Owner
pub mod Model
pub mod WellFormed
pub mod Sessions
pub mod Scan
pub mod Durable
pub mod Rescan
pub mod Recovery
pub mod Restarts
pub mod Runs
use Prim.Native.String
use pj_clusterintent.Prelude.{
  ℕ, String, Option, none, some, List, [], ◌∷◌, ◌++◌, leb, str_eq, if◌then◌else◌, is_some, Bool,
  not,
}
use pj_clusterintent.Prelude.Dict
use pj_clusterintent.Prelude.Dict.{Dict, put, values}
use pj_clusterintent.Prelude.Result.{Result, ok, err, ◌>>=◌}
use pj_clusterintent.Prelude.Sort.{sort}
use pj_clusterintent.Evidence.{
  RequestState, Evidence, Detail, record_created, append_event, is_terminal,
}
use pj_clusterintent.Store.Owner.{Identity, owner_key}
use pj_clusterintent.Store.Model.{
  Request, Session, Store, StoreError, not_found, not_owner, key_error, Fields, record_of,
  detail_of,
}

abbrev pub empty : Option Evidence → Store
empty evidence = record { requests = []; sessions = []; evidence = evidence }

abbrev pub map_evidence : (Evidence → Evidence) → Option Evidence → Option Evidence
map_evidence f none = none
map_evidence f (some e) = some (f e)

-- The request that `_new_request_locked` makes. `hex` is `uuid.uuid4().hex`.
unfoldable pub new_request : (now : ℕ) (hex : String) → Session → Identity → String → Request
new_request now hex session identity message = record {
  request_id = String.◌++◌ "req_" hex;
  session_id = session.session_id;
  identity = identity;
  message = message;
  state = RequestState.queued;
  created_at = now;
  updated_at = now;
  response = none;
  error = none;
  cost_usd = none;
  backend = none;
}

-- `session.request_ids.append` writes to the session that the store holds.
unfoldable pub new_request_locked :
    (now : ℕ) (hex : String) → Session → Identity → String → Store → Request × Store
unfolding new_request
new_request_locked now hex session identity message s =
    let request = new_request now hex session identity message in
    (
      request,
      record {
        requests = put request.request_id request s.requests;
        sessions =
            put session.session_id
              (record session { request_ids = session.request_ids ++ request.request_id ∷ [] })
              s.sessions;
        evidence = map_evidence (record_created now (record_of request)) s.evidence;
      },
    )

unfoldable pub create_session_and_request :
    (now : ℕ) (hex session_id : String) → Identity → String → Store → Request × Store
unfolding new_request_locked
create_session_and_request now hex session_id identity message s =
    let session : Session = record {
      session_id = session_id;
      identity = identity;
      created_at = now;
      request_ids = [];
    } in
    new_request_locked now hex session identity message
      (record s { sessions = put session_id session s.sessions })

unfoldable pub continue_session :
    (now : ℕ) (hex session_id : String)
    → Identity
    → String
    → Store
    → Result StoreError Request × Store
unfolding new_request_locked
continue_session now hex session_id identity message s = elim (Dict.get session_id s.sessions) [
  | none ↦ (err (not_found (String.◌++◌ "session not found: " session_id)), s)
  | some session ↦
      if str_eq (owner_key session.identity) (owner_key identity)
      then (let (r, s') = new_request_locked now hex session identity message s in (ok r, s'))
      else (err not_owner, s)
]

unfoldable pub get_request : String → Store → Result StoreError Request
get_request request_id s = elim (Dict.get request_id s.requests) [
  | none ↦ err (not_found (String.◌++◌ "request not found: " request_id))
  | some request ↦ ok request
]

-- `setattr` for one keyword
abbrev pub given {ℓ} : {A : Type ℓ} → Option A → A → A
given none old = old
given (some new) old = new

unfoldable pub set_fields : ℕ → Fields → Request → Request
set_fields now fields r = record r {
  state = given fields.state r.state;
  response = given fields.response r.response;
  error = given fields.error r.error;
  cost_usd = given fields.cost_usd r.cost_usd;
  backend = given fields.backend r.backend;
  updated_at = now;
}

unfoldable pub update_request :
    (now : ℕ) → String → Fields → Store → Result StoreError Request × Store
unfolding set_fields
update_request now request_id fields s = elim (Dict.get request_id s.requests) [
  | none ↦ (err (not_found (String.◌++◌ "request not found: " request_id)), s)
  | some old ↦
      let request = set_fields now fields old in
      (
        ok request,
        record s {
          requests = put request_id request s.requests;
          evidence =
              if is_some fields.state
              then map_evidence (append_event now request_id request.state (detail_of request))
                  s.evidence
              else s.evidence;
        },
      )
]

unfoldable pub list_sessions : Store → List Session
list_sessions s = sort (λ a b. leb a.created_at b.created_at) (values s.sessions)

-- `[self._requests[rid] for rid in …]`
unfoldable pub lookup_all : Dict Request → List String → Result StoreError (List Request)
lookup_all requests [] = ok []
lookup_all requests (rid ∷ rids) = elim (Dict.get rid requests) [
  | none ↦ err (key_error rid)
  | some r ↦ do rs ← lookup_all requests rids; ok (r ∷ rs)
]

unfoldable pub list_session_requests : String → Store → Result StoreError (List Request)
unfolding lookup_all
list_session_requests session_id s = elim (Dict.get session_id s.sessions) [
  | none ↦ err (not_found (String.◌++◌ "session not found: " session_id))
  | some session ↦ lookup_all s.requests session.request_ids
]
