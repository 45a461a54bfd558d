-- ===== src/Store/Recovery.antt =====
-- `scan_and_load` of store.py on the evidence of a store that was running: what a restart keeps.
use pj_clusterintent.Prelude.{
  ℕ, String, ◌≡◌, refl, true, none, some, List, [], arith, Option-cases, inl, inr, is_some, ◌∙◌,
  sym,
}
use pj_clusterintent.Prelude.Dict
use pj_clusterintent.Prelude.Dict.{Dict, get-put, keys}
use pj_clusterintent.Evidence.{is_terminal, read_request, list_request_ids}
use pj_clusterintent.Evidence.Laws.{
  read_request_lem, member, member-list_request_ids, IsDistinct-list_request_ids,
}
use pj_clusterintent.Store.Model.{Request, Store}
use pj_clusterintent.Store.Scan.{ScanState, scan_ids, scan_start, store_of, scan_and_load}
use pj_clusterintent.Store.Durable.{IsDurable, IsReadable}
use pj_clusterintent.Store.Rescan.{settle, map_settle, unfinished, IsReady, scan_ids_lem, Scanned}

get_empty : (rid : String) → Dict.get {V = Request} rid [] ≡ none
unfolding Dict.get
get_empty rid = refl

-- All ids that the evidence of a durable store lists are the ids of its requests.
IsReady-of_IsDurable :
    (s : Store) (d : IsDurable s) → IsReady s.requests (list_request_ids d.disk) d.disk
IsReady-of_IsDurable s d = record {
  present = λ rid m. listed rid (sym (member-list_request_ids rid d.disk d.distinct) ∙ m);
  same = λ rid m. d.mirrors rid;
}
  where
    listed :
        (rid : String)
        → is_some (read_request rid d.disk) ≡ true
        → (r : Request) × (Dict.get rid s.requests ≡ some r) × IsReadable rid r
    listed rid m = elim (Option-cases (Dict.get rid s.requests)) [
      | inl missing ↦ absurd (ground (arith, read_request_lem rid d.disk, d.mirrors rid))
      | inr (r, found) ↦ (r, found, d.readable rid r found)
    ]

pub member-listed :
    (s : Store) (d : IsDurable s) (rid : String)
    → member rid (list_request_ids d.disk) ≡ is_some (Dict.get rid s.requests)
member-listed s d rid = ground (
  arith,
  member-list_request_ids rid d.disk d.distinct,
  read_request_lem rid d.disk,
  d.mirrors rid,
)

-- The state in which the first loop ends.
pub scan_of_IsDurable :
    (now : ℕ) (s : Store) (d : IsDurable s)
    → (st : ScanState) × (scan_ids now (list_request_ids d.disk) (scan_start d.disk) ≡ some st)
      × Scanned now s.requests (list_request_ids d.disk) (scan_start d.disk) st
scan_of_IsDurable now s d =
    scan_ids_lem now s.requests (list_request_ids d.disk) (scan_start d.disk)
      (IsDistinct-list_request_ids d.disk d.distinct) (IsReady-of_IsDurable s d)

-- Started again on the evidence of a store that was running, `scan_and_load` does not raise. The
-- new store has the requests of the old one, each as it was but for the unfinished ones, which
-- are interrupted; the ids that it reports are exactly those of the unfinished requests.
pub scan_and_load_recovers :
    (now : ℕ) (s : Store) (d : IsDurable s)
    → (s' : Store) × (newly : List String) × (scan_and_load now d.disk ≡ some (s', newly))
      × ((rid : String) → Dict.get rid s'.requests ≡ map_settle (Dict.get rid s.requests))
      × (newly ≡ unfinished s.requests (list_request_ids d.disk))
unfolding scan_and_load
scan_and_load_recovers now s d =
    let (st, scanned, c) = scan_of_IsDurable now s d in
    (
      (store_of st).0,
      st.newly_interrupted,
      rw (scanned, scan_and_load),
      λ rid. ground (arith, c.requests_at rid, member-listed s d rid, get_empty rid),
      c.interrupted,
    )

-- Nothing that is loaded is unfinished.
pub settle-is_terminal : (r : Request) → is_terminal (settle r).state ≡ true
unfolding settle
settle-is_terminal r = ground arith
