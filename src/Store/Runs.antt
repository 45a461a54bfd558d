-- ===== src/Store/Runs.antt =====
-- Every run of the store of store.py: the calls that change it, in any order.
use Prim.Native.String
use pj_clusterintent.Prelude.{
  ℕ, String, ◌≡◌, true, none, some, List, [], is_some, sym, ◌∙◌, some_inj,
}
use mathlib.Core.Path.{subst}
use pj_clusterintent.Prelude.Dict
use pj_clusterintent.Evidence.{list_request_ids, Evidence}
use pj_clusterintent.Store.Owner.{Identity, IsCanonical}
use pj_clusterintent.Store.Model.{Store, Fields}
use pj_clusterintent.Store.{empty, create_session_and_request, continue_session, update_request}
use pj_clusterintent.Store.Scan.{scan_and_load}
use pj_clusterintent.Store.WellFormed.{
  IsWellFormed, empty-IsWellFormed, create_session_and_request-IsWellFormed,
  continue_session-IsWellFormed, update_request-IsWellFormed,
}
use pj_clusterintent.Store.Durable.{
  IsDurable, empty-IsDurable, create_session_and_request-IsDurable, continue_session-IsDurable,
  update_request-IsDurable,
}
use pj_clusterintent.Store.Rescan.{map_settle, unfinished}
use pj_clusterintent.Store.Recovery.{scan_and_load_recovers}
use pj_clusterintent.Store.Restarts.{map_close, scan_and_load_twice}

-- `uuid4` gives an id that is not in use, and the identity comes from an authenticator.
pub record IsFresh (hex : String) (identity : Identity) (s : Store) : Type 0 where
  pub unused : Dict.get (String.◌++◌ "req_" hex) s.requests ≡ none
  pub canonical : IsCanonical identity

-- A call that raises is a step too.
pub data Call (s : Store) : Store → Type 0 where
  create :
      (now : ℕ) (hex sid : String) (identity : Identity) (message : String)
      → IsFresh hex identity s
      → Call s (create_session_and_request now hex sid identity message s).1
  continue :
      (now : ℕ) (hex sid : String) (identity : Identity) (message : String)
      → IsFresh hex identity s
      → Call s (continue_session now hex sid identity message s).1
  update :
      (now : ℕ) (rid : String) (fields : Fields)
      → is_some fields.state ≡ true
      → Call s (update_request now rid fields s).1

-- The stores of one process that started on an empty evidence directory, between its calls.
pub data Run : Store → Type 0 where
  start : Run (empty (some []))
  next : {s t : Store} → Run s → Call s t → Run t

Call-IsWellFormed : {s t : Store} → Call s t → IsWellFormed s → IsWellFormed t
Call-IsWellFormed (create now hex sid identity message f) w =
    create_session_and_request-IsWellFormed now hex identity message sid _ w f.unused
Call-IsWellFormed (continue now hex sid identity message f) w =
    continue_session-IsWellFormed now hex identity message sid _ w f.unused
Call-IsWellFormed (update now rid fields named) w = update_request-IsWellFormed now rid fields _ w

Call-IsDurable : {s t : Store} → Call s t → IsDurable s → IsDurable t
Call-IsDurable (create now hex sid identity message f) d =
    create_session_and_request-IsDurable now hex identity message f.canonical sid _ d
Call-IsDurable (continue now hex sid identity message f) d =
    continue_session-IsDurable now hex identity message f.canonical sid _ d
Call-IsDurable (update now rid fields named) d = update_request-IsDurable now rid fields _ named d

-- Between any two calls of a process that started on an empty evidence directory, each session lists
-- requests that are there, belong to it and have its owner.
pub Run-IsWellFormed : {s : Store} → Run s → IsWellFormed s
Run-IsWellFormed start = empty-IsWellFormed (some [])
Run-IsWellFormed (next r c) = Call-IsWellFormed c (Run-IsWellFormed r)

-- Between any two calls of a process that started on an empty evidence directory, the evidence on disk
-- holds exactly the requests of the store: for each its record, and as its latest event the state,
-- response, error, cost and backend that the store has.
pub Run-IsDurable : {s : Store} → Run s → IsDurable s
Run-IsDurable start = empty-IsDurable
Run-IsDurable (next r c) = Call-IsDurable c (Run-IsDurable r)

-- When a process that started on an empty evidence directory ends between two calls of the store,
-- `scan_and_load` on the evidence that it leaves does not raise. The new store has the requests of the old
-- one, each as it was but for the unfinished ones, which are interrupted; the ids that it reports are
-- exactly those of the unfinished requests.
pub restart_recovers :
    (now : ℕ) {s : Store} (disk : Evidence)
    → Run s
    → s.evidence ≡ some disk
    → (s' : Store) × (newly : List String) × (scan_and_load now disk ≡ some (s', newly))
      × ((rid : String) → Dict.get rid s'.requests ≡ map_settle (Dict.get rid s.requests))
      × (newly ≡ unfinished s.requests (list_request_ids disk))
restart_recovers now {s} disk r e =
    let d = Run-IsDurable r in
    subst
      (λ x.
        (s' : Store) × (newly : List String) × (scan_and_load now x ≡ some (s', newly))
        × ((rid : String) → Dict.get rid s'.requests ≡ map_settle (Dict.get rid s.requests))
        × (newly ≡ unfinished s.requests (list_request_ids x)))
      (some_inj (sym d.attached ∙ e)) (scan_and_load_recovers now s d)

-- A process that starts on what such a restart has left, the first process having started on an empty
-- evidence directory and ended between two calls of the store, interrupts nothing: the second scan does not
-- raise and reports no request, and each request is as the first scan wrote it, as it was if it had
-- ended, and interrupted otherwise, at the time of that scan and with no response, error or cost.
pub second_restart_is_quiet :
    (now later : ℕ) {s : Store} (disk : Evidence)
    → Run s
    → s.evidence ≡ some disk
    → (s' : Store) × (newly : List String) × (disk' : Evidence) × (s'' : Store) × (scan_and_load now
          disk
        ≡ some (s', newly))
      × (s'.evidence ≡ some disk')
      × (scan_and_load later disk' ≡ some (s'', []))
      × ((rid : String) → Dict.get rid s''.requests ≡ map_close now (Dict.get rid s.requests))
second_restart_is_quiet now later {s} disk r e =
    let d = Run-IsDurable r in
    subst
      (λ x.
        (s' : Store) × (newly : List String) × (disk' : Evidence) × (s'' : Store) × (scan_and_load
            now x
          ≡ some (s', newly))
        × (s'.evidence ≡ some disk')
        × (scan_and_load later disk' ≡ some (s'', []))
        × ((rid : String) → Dict.get rid s''.requests ≡ map_close now (Dict.get rid s.requests)))
      (some_inj (sym d.attached ∙ e)) (scan_and_load_twice now later s d)
