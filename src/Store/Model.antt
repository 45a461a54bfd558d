-- ===== src/Store/Model.antt =====
-- cagent/src/cagent_api/store.py: the data of the store. Times are clock readings; the clock does
-- not move within one call.
use pj_clusterintent.Prelude.{ℕ, String, Option, List, none}
use pj_clusterintent.Prelude.Dict.{Dict}
use pj_clusterintent.Evidence.{RequestState, ErrorInfo, Backend, Detail, RequestRecord, Evidence}
use pj_clusterintent.Store.Owner.{Identity, as_dict}

pub record Request : Type 0 where
  pub request_id : String
  pub session_id : String
  pub identity : Identity
  pub message : String
  pub state : RequestState
  pub created_at : ℕ
  pub updated_at : ℕ
  pub response : Option String
  pub error : Option ErrorInfo
  pub cost_usd : Option ℕ
  pub backend : Option Backend

pub record Session : Type 0 where
  pub session_id : String
  pub identity : Identity
  pub created_at : ℕ
  pub request_ids : List String

-- `key_error` is the KeyError of a session that names a request which is not there.
pub data StoreError : Type 0 where
  not_found : String → StoreError
  not_owner : StoreError
  key_error : String → StoreError

pub record Store : Type 0 where
  pub requests : Dict Request
  pub sessions : Dict Session
  pub evidence : Option Evidence

-- The keyword arguments of `update_request`; a keyword that is not given is `none`.
pub record Fields : Type 0 where
  pub state : Option RequestState
  pub response : Option (Option String)
  pub error : Option (Option ErrorInfo)
  pub cost_usd : Option (Option ℕ)
  pub backend : Option (Option Backend)

abbrev pub no_fields : Fields
no_fields = record { state = none; response = none; error = none; cost_usd = none; backend = none }

-- What `request.json` keeps of a request.
unfoldable pub record_of : Request → RequestRecord
record_of r = record {
  request_id = r.request_id;
  session_id = r.session_id;
  identity = as_dict r.identity;
  message = r.message;
  created_at = r.created_at;
}

-- The `detail` of `update_request`: the fields that are not None.
unfoldable pub detail_of : Request → Detail
detail_of r = record {
  response = r.response;
  error = r.error;
  cost_usd = r.cost_usd;
  backend = r.backend;
}
