-- ===== src/Ledger/Log.antt =====
-- cagent/src/cagent_api/ledger.py: the events of the log, and `_fold`, which rebuilds the entries.
use pj_clusterintent.Prelude.{ℕ, String, Option, none, some, List, foldl, []}
use pj_clusterintent.Prelude.Dict.{Dict, get, put}

pub data LedgerState : Type 0 where
  active revoked : LedgerState

-- `other` is any action word that the fold does not know; it leaves the entries alone.
pub data Action : Type 0 where
  register : (uuid fingerprint not_after : String) → Action
  revoke reactivate : Action
  other : String → Action

pub record Event : Type 0 where
  pub ts : ℕ
  pub serial : String
  pub action : Action

pub record LedgerEntry : Type 0 where
  pub uuid : String
  pub serial : String
  pub fingerprint : String
  pub issued_at : ℕ
  pub not_after : String
  pub state : LedgerState
  pub revoked_at : Option ℕ

-- The three branches of the loop in `_fold`.
unfoldable pub apply_action : Action → ℕ → String → Dict LedgerEntry → Dict LedgerEntry
apply_action (register uuid fingerprint not_after) ts serial entries =
    put serial
      (record {
        uuid = uuid;
        serial = serial;
        fingerprint = fingerprint;
        issued_at = ts;
        not_after = not_after;
        state = active;
        revoked_at = none;
      })
      entries
apply_action revoke ts serial entries = elim (get serial entries) [
  | none ↦ entries
  | some current ↦
      put serial (record current { serial = serial; state = revoked; revoked_at = some ts }) entries
]
apply_action reactivate ts serial entries = elim (get serial entries) [
  | none ↦ entries
  | some current ↦
      put serial (record current { serial = serial; state = active; revoked_at = none }) entries
]
apply_action (other word) ts serial entries = entries

unfoldable pub apply_event : Dict LedgerEntry → Event → Dict LedgerEntry
unfolding apply_action
apply_event entries event = apply_action event.action event.ts event.serial entries

unfoldable pub fold : List Event → Dict LedgerEntry
unfolding apply_event
fold events = foldl apply_event [] events
