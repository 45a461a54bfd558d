-- ===== src/Store/Rescan.antt =====
-- The loop of `scan_and_load` over the ids of a durable store.
use pj_clusterintent.Prelude.{
  ℕ, String, ◌≡◌, refl, true, false, Option, none, some, List, [], ◌∷◌, ◌++◌, arith, str_eq, eq_iff,
  eq_refl, if◌then◌else◌, Bool-cases, inl, inr, ap, ◌∙◌, sym,
}
use mathlib.Core.List.{append-nil, append_assoc}
use pj_clusterintent.Prelude.Dict
use pj_clusterintent.Prelude.Dict.{Dict, get-put, keys}
use pj_clusterintent.Evidence.{RequestState, RequestRecord, Evidence, is_terminal, no_detail}
use pj_clusterintent.Evidence.Laws.{
  View, view, view-append_event, append_event-IsDistinct, read_request_lem, read_latest_event_lem,
  member, IsDistinct,
}
use pj_clusterintent.Store.Owner.{IsCanonical, identity_from_record-as_dict}
use pj_clusterintent.Store.Model.{Request, record_of, detail_of}
use pj_clusterintent.Store.Scan.{ScanState, settled, loaded, load_record, scan_ids}
use pj_clusterintent.Store.Durable.{IsReadable, event_of, durable}

-- What a restart makes of a request: an unfinished one is interrupted, nothing else changes.
unfoldable pub settle : Request → Request
settle r = record r { state = settled r.state }

abbrev pub map_settle : Option Request → Option Request
map_settle none = none
map_settle (some r) = some (settle r)

loaded-record_of :
    (r : Request) → IsCanonical r.identity → loaded (record_of r) (some (event_of r)) ≡ settle r
unfolding loaded record_of detail_of settle
loaded-record_of r h = rw (identity_from_record-as_dict r.identity h)

-- The ids whose request is unfinished.
unfoldable pub unfinished : Dict Request → List String → List String
unfinished requests [] = []
unfinished requests (rid ∷ ids) = elim (Dict.get rid requests) [
  | none ↦ unfinished requests ids
  | some r ↦ if is_terminal r.state then unfinished requests ids else rid ∷ unfinished requests ids
]

-- What the scan still needs of the ids before it.
pub record IsReady (requests : Dict Request) (ids : List String) (e : Evidence) : Type 0 where
  pub present :
      (rid : String)
      → member rid ids ≡ true
      → (r : Request) × (Dict.get rid requests ≡ some r) × IsReadable rid r
  pub same : (rid : String) → member rid ids ≡ true → view rid e ≡ durable (Dict.get rid requests)

load_record_requests :
    (now : ℕ) (rid : String) (r : Request) (st : ScanState)
    → IsCanonical r.identity
    → view rid st.evidence ≡ durable (some r)
    → (load_record now rid (record_of r) st).requests ≡ Dict.put rid (settle r) st.requests
unfolding load_record
load_record_requests now rid r st h v =
    rw (read_latest_event_lem, v) (ap (λ x. Dict.put rid x st.requests) (loaded-record_of r h))

-- The view that the scan leaves of an id that it has read.
abbrev pub closed_view : ℕ → Request → View
closed_view now r =
    if is_terminal r.state
    then durable (some r)
    else some (
      some (record_of r),
      some (record { ts = now; state = RequestState.interrupted; detail = no_detail }),
    )

load_record_evidence :
    (now : ℕ) (rid : String) (r : Request) (st : ScanState) (j : String)
    → view rid st.evidence ≡ durable (some r)
    → view j (load_record now rid (record_of r) st).evidence
      ≡ (if str_eq rid j then closed_view now r else view j st.evidence)
unfolding load_record
load_record_evidence now rid r st j v =
    rw (read_latest_event_lem, v)
      (ground (
        arith,
        v,
        view-append_event j now rid RequestState.interrupted no_detail st.evidence,
        eq_iff rid j,
      ))

load_record-IsDistinct :
    (now : ℕ) (rid : String) (r : RequestRecord) (st : ScanState)
    → IsDistinct (keys st.evidence)
    → IsDistinct (keys (load_record now rid r st).evidence)
unfolding load_record
load_record-IsDistinct now rid r st k =
    ground (arith, append_event-IsDistinct now rid RequestState.interrupted no_detail st.evidence)

load_record_interrupted :
    (now : ℕ) (rid : String) (r : Request) (st : ScanState)
    → view rid st.evidence ≡ durable (some r)
    → (load_record now rid (record_of r) st).newly_interrupted
      ≡ (if is_terminal r.state then st.newly_interrupted else st.newly_interrupted ++ rid ∷ [])
unfolding load_record
load_record_interrupted now rid r st v = rw (read_latest_event_lem, v) refl

abbrev pub closed : ℕ → Option Request → View
closed now none = none
closed now (some r) = closed_view now r

pub record Scanned (now : ℕ) (requests : Dict Request) (ids : List String) (st st' : ScanState)
    : Type 0 where
  pub requests_at :
      (j : String)
      → Dict.get j st'.requests
        ≡ (if member j ids then map_settle (Dict.get j requests) else Dict.get j st.requests)
  pub evidence_at :
      (j : String)
      → view j st'.evidence
        ≡ (if member j ids then closed now (Dict.get j requests) else view j st.evidence)
  pub distinct : IsDistinct (keys st.evidence) → IsDistinct (keys st'.evidence)
  pub interrupted : st'.newly_interrupted ≡ st.newly_interrupted ++ unfinished requests ids

module _ (now : ℕ) (requests : Dict Request) where
  unfinished_cons :
      (rid : String) (ids : List String) (r : Request)
      → Dict.get rid requests ≡ some r
      → unfinished requests (rid ∷ ids)
        ≡ (if is_terminal r.state then unfinished requests ids else rid ∷ unfinished requests ids)
  unfolding unfinished
  unfinished_cons rid ids r found = rw (found, unfinished)

  one_more :
      (state : RequestState) (before : List String) (rid : String) (later : List String)
      → (if is_terminal state then before else before ++ rid ∷ []) ++ later
        ≡ before ++ (if is_terminal state then later else rid ∷ later)
  one_more state before rid later = elim (Bool-cases (is_terminal state)) [
    | inl e ↦ rw e
    | inr e ↦ rw e (append_assoc before (rid ∷ []) later)
  ]

  -- One round of the loop, and what the later rounds make of its result.
  Scanned-cons :
      (rid : String) (ids : List String) (r : Request) (st st' : ScanState)
      → IsCanonical r.identity
      → Dict.get rid requests ≡ some r
      → view rid st.evidence ≡ durable (some r)
      → member rid ids ≡ false
      → Scanned now requests ids (load_record now rid (record_of r) st) st'
      → Scanned now requests (rid ∷ ids) st st'
  Scanned-cons rid ids r st st' canonical found v fresh s = record {
    requests_at = λ j. ground (
      arith,
      found,
      s.requests_at j,
      load_record_requests now rid r st canonical v,
      get-put j rid (settle r) st.requests,
      eq_iff rid j,
    );
    evidence_at = λ j.
        ground (arith, found, s.evidence_at j, load_record_evidence now rid r st j v, eq_iff rid j);
    distinct = λ k. s.distinct (load_record-IsDistinct now rid (record_of r) st k);
    interrupted =
        s.interrupted
        ∙ (rw (load_record_interrupted now rid r st v, unfinished_cons rid ids r found)
            (one_more r.state st.newly_interrupted rid (unfinished requests ids)));
  }

  IsReady-cons :
      (rid : String) (ids : List String) (r : Request) (st : ScanState)
      → view rid st.evidence ≡ durable (some r)
      → member rid ids ≡ false
      → IsReady requests (rid ∷ ids) st.evidence
      → IsReady requests ids (load_record now rid (record_of r) st).evidence
  IsReady-cons rid ids r st v fresh h = record {
    present = λ j m. h.present j (ground arith);
    same = λ j m. ground (arith, load_record_evidence now rid r st j v, h.same j, eq_iff rid j);
  }

  pub scan_ids_lem :
      (ids : List String) (st : ScanState)
      → IsDistinct ids
      → IsReady requests ids st.evidence
      → (st' : ScanState) × (scan_ids now ids st ≡ some st') × Scanned now requests ids st st'
  unfolding scan_ids unfinished
  scan_ids_lem [] st d h = (
    st,
    refl,
    record {
      requests_at = λ j. refl;
      evidence_at = λ j. refl;
      distinct = λ k. k;
      interrupted = sym (append-nil _);
    },
  )
  scan_ids_lem (rid ∷ ids) st (fresh, d) h =
      let here : member rid (rid ∷ ids) ≡ true = rw (eq_refl rid) refl in
      let (r, found, readable) = h.present rid here in
      let v : view rid st.evidence ≡ durable (some r) = h.same rid here ∙ ap durable found in
      let (st', scanned, s) =
        scan_ids_lem ids (load_record now rid (record_of r) st) d
          (IsReady-cons rid ids r st v fresh h) in
      (
        st',
        rw (read_request_lem, v, scan_ids) scanned,
        Scanned-cons rid ids r st st' readable.1 found v fresh s,
      )
