-- ===== src/Store/Restarts.antt =====
-- `scan_and_load` of store.py, run a second time on the evidence that it has written itself.
use pj_clusterintent.Prelude.{
  ℕ, String, ◌≡◌, refl, true, Option, none, some, List, [], ◌∷◌, arith, Option-cases, inl, inr, ◌∙◌,
  sym, if◌then◌else◌, ap, Bool-cases, some_inj,
}
use mathlib.Core.Path.{subst}
use pj_clusterintent.Prelude.Dict
use pj_clusterintent.Prelude.Dict.{Dict, keys, Each}
use pj_clusterintent.Evidence.{RequestState, Evidence, is_terminal, list_request_ids}
use pj_clusterintent.Evidence.Laws.{view}
use pj_clusterintent.Store.Model.{Request, Store, record_of, detail_of}
use pj_clusterintent.Store.Scan.{ScanState, scan_start, scan_and_load, store_of}
use pj_clusterintent.Store.Durable.{IsDurable, IsReadable, durable}
use pj_clusterintent.Store.Rescan.{settle, map_settle, unfinished, closed, Scanned}
use pj_clusterintent.Store.Recovery.{scan_of_IsDurable, member-listed, scan_and_load_recovers}

-- The request as the evidence has it after the scan at `now`.
unfoldable pub close : ℕ → Request → Request
close now r = if is_terminal r.state then r else record r {
  state = RequestState.interrupted;
  updated_at = now;
  response = none;
  error = none;
  cost_usd = none;
  backend = none;
}

abbrev pub map_close : ℕ → Option Request → Option Request
map_close now none = none
map_close now (some r) = some (close now r)

close_all : ℕ → Dict Request → Dict Request
close_all now [] = []
close_all now ((rid, r) ∷ d) = (rid, close now r) ∷ close_all now d

get-close_all :
    (now : ℕ) (rid : String) (d : Dict Request)
    → Dict.get rid (close_all now d) ≡ map_close now (Dict.get rid d)
unfolding Dict.get close_all
get-close_all now rid [] = refl
get-close_all now rid ((k, r) ∷ d) = ground (arith, get-close_all now rid d)

close-is_terminal : (now : ℕ) (r : Request) → is_terminal (close now r).state ≡ true
unfolding close
close-is_terminal now r = ground arith

closed-eq-durable : (now : ℕ) (r : Option Request) → closed now r ≡ durable (map_close now r)
unfolding close record_of detail_of
closed-eq-durable now none = refl
closed-eq-durable now (some r) = elim (Bool-cases (is_terminal r.state)) [
  | inl e ↦ rw (close, e) refl
  | inr e ↦ rw (close, e) refl
]

IsReadable-close :
    (now : ℕ) (rid : String) (r : Request) → IsReadable rid r → IsReadable rid (close now r)
unfolding close
IsReadable-close now rid r h = ground arith

unfinished_none :
    (d : Dict Request) (ids : List String)
    → ((rid : String) (r : Request) → Dict.get rid d ≡ some r → is_terminal r.state ≡ true)
    → unfinished d ids ≡ []
unfolding unfinished
unfinished_none d [] h = refl
unfinished_none d (rid ∷ ids) h = elim (Option-cases (Dict.get rid d)) [
  | inl e ↦ rw (e, unfinished) (unfinished_none d ids h)
  | inr (r, e) ↦ rw (e, unfinished) (rw (h rid r e) (unfinished_none d ids h))
]

settle-close : (now : ℕ) (r : Request) → settle (close now r) ≡ close now r
unfolding settle close
settle-close now r = ground arith

map_settle-map_close :
    (now : ℕ) (r : Option Request) → map_settle (map_close now r) ≡ map_close now r
map_settle-map_close now none = refl
map_settle-map_close now (some r) = ap some (settle-close now r)

-- The store that the evidence stands for after the first scan.
closed_store : ℕ → Store → Evidence → Store
closed_store now s disk = record {
  requests = close_all now s.requests;
  sessions = [];
  evidence = some disk;
}

module _ (now : ℕ) (s : Store) (d : IsDurable s) (st : ScanState)
    (c : Scanned now s.requests (list_request_ids d.disk) (scan_start d.disk) st) where
  closed_mirrors :
      (rid : String) → view rid st.evidence ≡ durable (Dict.get rid (close_all now s.requests))
  closed_mirrors rid =
      rw (get-close_all now rid s.requests) (elim (Option-cases (Dict.get rid s.requests)) [
        | inl e ↦ rw e (ground (arith, c.evidence_at rid, member-listed s d rid, d.mirrors rid, e))
        | inr (r, e) ↦ rw e (
            ground
              (arith, c.evidence_at rid, member-listed s d rid, closed-eq-durable now (some r), e))
      ])

  closed_readable : Each IsReadable (close_all now s.requests)
  closed_readable rid x found = elim (Option-cases (Dict.get rid s.requests)) [
    | inl e ↦ cc (get-close_all now rid s.requests, ap (map_close now) e, found)
    | inr (r, e) ↦
        let same : close now r ≡ x =
          some_inj (sym (get-close_all now rid s.requests ∙ ap (map_close now) e) ∙ found) in
        subst (IsReadable rid) same (IsReadable-close now rid r (d.readable rid r e))
  ]

  closed-IsDurable : IsDurable (closed_store now s st.evidence)
  unfolding closed_store
  closed-IsDurable = record {
    disk = st.evidence;
    attached = refl;
    mirrors = closed_mirrors;
    readable = closed_readable;
    distinct = c.distinct d.distinct;
  }

closed_ended :
    (now : ℕ) (d : Dict Request) (rid : String) (x : Request)
    → Dict.get rid (close_all now d) ≡ some x
    → is_terminal x.state ≡ true
closed_ended now d rid x found = elim (Option-cases (Dict.get rid d)) [
  | inl e ↦ cc (get-close_all now rid d, ap (map_close now) e, found)
  | inr (r, e) ↦
      let same : close now r ≡ x =
        some_inj (sym (get-close_all now rid d ∙ ap (map_close now) e) ∙ found) in
      subst (λ z. is_terminal z.state ≡ true) same (close-is_terminal now r)
]

pub scan_and_load_twice :
    (now later : ℕ) (s : Store) (d : IsDurable s)
    → (s' : Store) × (newly : List String) × (disk : Evidence) × (s'' : Store) × (scan_and_load now
          d.disk
        ≡ some (s', newly))
      × (s'.evidence ≡ some disk)
      × (scan_and_load later disk ≡ some (s'', []))
      × ((rid : String) → Dict.get rid s''.requests ≡ map_close now (Dict.get rid s.requests))
unfolding scan_and_load closed_store
scan_and_load_twice now later s d =
    let (st, scanned, c) = scan_of_IsDurable now s d in
    let d1 = closed-IsDurable now s d st c in
    let (s'', newly, again, gets, reported) =
      scan_and_load_recovers later (closed_store now s st.evidence) d1 in
    (
      (store_of st).0,
      st.newly_interrupted,
      st.evidence,
      s'',
      rw (scanned, scan_and_load),
      refl,
      ap (scan_and_load later) (some_inj d1.attached)
          ∙ again
          ∙ ap (λ x. some (s'', x))
              (reported
                ∙ unfinished_none (close_all now s.requests) _ (closed_ended now s.requests)),
      λ rid.
          gets rid
          ∙ ap map_settle (get-close_all now rid s.requests)
          ∙ map_settle-map_close now (Dict.get rid s.requests),
    )
