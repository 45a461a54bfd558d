-- ===== src/Store/Durable.antt =====
-- "Request state lives on the evidence side": after every method of store.py the evidence of each
-- request says what the store says.
use pj_clusterintent.Prelude.{
  ℕ, String, ◌≡◌, refl, true, Option, none, some, [], arith, str_eq, Option-cases, Bool-cases, inl,
  inr, is_some,
}
use pj_clusterintent.Prelude.Dict
use pj_clusterintent.Prelude.Dict.{Dict, Each, Each-put, get-put, keys}
use pj_clusterintent.Evidence.{StateEvent, Evidence, record_created, append_event}
use pj_clusterintent.Evidence.Laws.{
  View, view, view-append_event, view-record_created, IsDistinct, append_event-IsDistinct,
  record_created-IsDistinct,
}
use pj_clusterintent.Store.Owner.{Identity, IsCanonical, owner_key}
use pj_clusterintent.Store.Model.{Request, Session, Store, Fields, record_of, detail_of}
use pj_clusterintent.Store.{
  new_request, new_request_locked, create_session_and_request, continue_session, update_request,
  set_fields, empty,
}

-- The event that was logged when the request was last changed.
abbrev pub event_of : Request → StateEvent
event_of r = record { ts = r.updated_at; state = r.state; detail = detail_of r }

abbrev pub durable : Option Request → View
durable none = none
durable (some r) = some (some (record_of r), some (event_of r))

-- The evidence holds exactly the requests of the store, each with its record and its state.
abbrev pub Mirrors : Evidence → Dict Request → Type 0
Mirrors e requests = (rid : String) → view rid e ≡ durable (Dict.get rid requests)

abbrev pub IsReadable : String → Request → Type 0
IsReadable rid r = (r.request_id ≡ rid) × IsCanonical r.identity

pub record IsDurable (s : Store) : Type 0 where
  pub disk : Evidence
  pub attached : s.evidence ≡ some disk
  pub mirrors : Mirrors disk s.requests
  pub readable : Each IsReadable s.requests
  pub distinct : IsDistinct (keys disk)

module _ (now : ℕ) (hex : String) (identity : Identity) (message : String)
    (canonical : IsCanonical identity) where
  new_request_locked-IsDurable :
      (s : Store) (session : Session)
      → IsDurable s
      → IsDurable (new_request_locked now hex session identity message s).1
  unfolding new_request_locked detail_of record_of
  new_request_locked-IsDurable s session d =
      let r = new_request now hex session identity message in
      record {
        disk = record_created now (record_of r) d.disk;
        attached = rw d.attached;
        mirrors = λ j. ground (
          arith,
          view-record_created j now (record_of r) d.disk,
          get-put j r.request_id r s.requests,
          d.mirrors j,
        );
        readable = Each-put IsReadable r.request_id r s.requests (refl, canonical) d.readable;
        distinct = record_created-IsDistinct now (record_of r) d.disk d.distinct;
      }

  -- A new session with its first request keeps the evidence in step.
  pub create_session_and_request-IsDurable :
      (sid : String) (s : Store)
      → IsDurable s
      → IsDurable (create_session_and_request now hex sid identity message s).1
  unfolding create_session_and_request
  create_session_and_request-IsDurable sid s d =
      let session : Session = record {
        session_id = sid;
        identity = identity;
        created_at = now;
        request_ids = [];
      } in
      new_request_locked-IsDurable (record s { sessions = Dict.put sid session s.sessions }) session
        (record {
          disk = d.disk;
          attached = d.attached;
          mirrors = d.mirrors;
          readable = d.readable;
          distinct = d.distinct;
        })

  pub continue_session-IsDurable :
      (sid : String) (s : Store)
      → IsDurable s
      → IsDurable (continue_session now hex sid identity message s).1
  unfolding continue_session
  continue_session-IsDurable sid s d = elim (Option-cases (Dict.get sid s.sessions)) [
    | inl missing ↦ rw (missing, continue_session) d
    | inr (session, found) ↦
        elim (Bool-cases (str_eq (owner_key session.identity) (owner_key identity))) [
          | inl own ↦
              rw (found, continue_session) (rw own (new_request_locked-IsDurable s session d))
          | inr other ↦ rw (found, continue_session) (rw other d)
        ]
  ]

module _ (now : ℕ) (rid : String) (fields : Fields) where
  -- The evidence that `update_request` leaves, if the change names its state.
  updated_disk : Request → Evidence → Evidence
  updated_disk request disk = append_event now rid request.state (detail_of request) disk

  updated-Mirrors :
      (old : Request) (disk : Evidence) (requests : Dict Request)
      → Dict.get rid requests ≡ some old
      → Mirrors disk requests
      → Mirrors
          (updated_disk (set_fields now fields old) disk)
          (Dict.put rid (set_fields now fields old) requests)
  unfolding updated_disk set_fields record_of detail_of
  updated-Mirrors old disk requests found m j =
      let r = set_fields now fields old in
      ground (
        arith,
        found,
        view-append_event j now rid r.state (detail_of r) disk,
        get-put j rid r requests,
        m rid,
        m j,
      )

  -- Every change of a request that names its state keeps the evidence in step.
  pub update_request-IsDurable :
      (s : Store)
      → is_some fields.state ≡ true
      → IsDurable s
      → IsDurable (update_request now rid fields s).1
  unfolding update_request updated_disk
  update_request-IsDurable s named d = elim (Option-cases (Dict.get rid s.requests)) [
    | inl missing ↦ rw (missing, update_request) d
    | inr (old, found) ↦
        let r = set_fields now fields old in
        rw (found, update_request)
          (rw (named, d.attached)
            (record {
              disk = updated_disk r d.disk;
              attached = refl;
              mirrors = updated-Mirrors old d.disk s.requests found d.mirrors;
              readable =
                  Each-put IsReadable rid r s.requests
                    (unfold set_fields in d.readable rid old found) d.readable;
              distinct = append_event-IsDistinct now rid r.state (detail_of r) d.disk d.distinct;
            }))
  ]

-- A store that starts on an empty evidence directory is in step with it.
pub empty-IsDurable : IsDurable (empty (some []))
unfolding view Dict.get
empty-IsDurable = record {
  disk = [];
  attached = refl;
  mirrors = λ rid. refl;
  readable = λ rid r e. cc;
  distinct = tt;
}
