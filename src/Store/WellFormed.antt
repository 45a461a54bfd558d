-- ===== src/Store/WellFormed.antt =====
-- The invariant of store.py: what a session lists is there, belongs to it, and has its owner.
use Prim.Native.String
use pj_clusterintent.Prelude.{
  ℕ, String, ◌≡◌, refl, true, Option, none, some, List, [], ◌∷◌, arith, str_eq, eq_iff, All,
  All-append, Option-cases, Bool-cases, inl, inr, sym, ap, ◌∙◌, some_inj,
}
use mathlib.Core.Path.{subst}
use pj_clusterintent.Prelude.Dict
use pj_clusterintent.Prelude.Dict.{Dict, Each, Each-put, get-put, get-put_self, get-put_ne}
use pj_clusterintent.Evidence.{Evidence}
use pj_clusterintent.Store.Owner.{Identity, owner_key}
use pj_clusterintent.Store.Model.{Request, Session, Store, Fields}
use pj_clusterintent.Store.{
  new_request, new_request_locked, create_session_and_request, continue_session, update_request,
  set_fields, empty,
}

-- The request under an id, as a session `sid` of the owner `owner` that lists the id wants it.
pub record IsHeld (requests : Dict Request) (sid owner : String) (rid : String) : Type 0 where
  pub request : Request
  pub found : Dict.get rid requests ≡ some request
  pub own_id : request.request_id ≡ rid
  pub in_session : request.session_id ≡ sid
  pub same_owner : owner_key request.identity ≡ owner

-- A session under the id `sid`.
pub record IsKept (requests : Dict Request) (sid : String) (session : Session) : Type 0 where
  pub own_id : session.session_id ≡ sid
  pub held :
      All (IsHeld requests session.session_id (owner_key session.identity)) session.request_ids

pub record IsWellFormed (s : Store) : Type 0 where
  pub kept : Each (IsKept s.requests) s.sessions

-- Every request stays, with its ids and its identity.
abbrev Extends : Dict Request → Dict Request → Type 0
Extends d d' =
    (rid : String) (r : Request)
    → Dict.get rid d ≡ some r
    → (r' : Request) × (Dict.get rid d' ≡ some r')
      × (r'.request_id ≡ r.request_id)
      × (r'.session_id ≡ r.session_id)
      × (r'.identity ≡ r.identity)

IsHeld-Extends :
    {d d' : Dict Request} (sid owner rid : String)
    → Extends d d'
    → IsHeld d sid owner rid
    → IsHeld d' sid owner rid
IsHeld-Extends sid owner rid more h =
    let (r', found, same_id, same_session, same_identity) = more rid h.request h.found in
    record {
      request = r';
      found = found;
      own_id = cc (h.own_id);
      in_session = cc (h.in_session);
      same_owner = rw same_identity h.same_owner;
    }

All-IsHeld-Extends :
    (d d' : Dict Request) (sid owner : String) (rids : List String)
    → Extends d d'
    → All (IsHeld d sid owner) rids
    → All (IsHeld d' sid owner) rids
All-IsHeld-Extends d d' sid owner [] more h = tt
All-IsHeld-Extends d d' sid owner (rid ∷ rids) more h =
    (IsHeld-Extends sid owner rid more h.0, All-IsHeld-Extends d d' sid owner rids more h.1)

Extends-put_fresh :
    (rid : String) (r : Request) (d : Dict Request)
    → Dict.get rid d ≡ none
    → Extends d (Dict.put rid r d)
Extends-put_fresh rid r d fresh j q e =
    (q, rw get-put (ground (arith, eq_iff rid j)), refl, refl, refl)

Extends-set_fields :
    (now : ℕ) (fields : Fields) (rid : String) (r : Request) (d : Dict Request)
    → Dict.get rid d ≡ some r
    → Extends d (Dict.put rid (set_fields now fields r) d)
unfolding set_fields
Extends-set_fields now fields rid r d e j q k = elim (Bool-cases (str_eq rid j)) [
  | inl same ↦ (
    set_fields now fields r,
    rw (get-put, same),
    ap (λ x. x.request_id) (found same),
    ap (λ x. x.session_id) (found same),
    ap (λ x. x.identity) (found same),
  )
  | inr other ↦ (q, rw (get-put, other) k, refl, refl, refl)
]
  where
    found : str_eq rid j ≡ true → r ≡ q
    found same =
        some_inj (sym e ∙ subst (λ x. Dict.get x d ≡ some q) (sym ((eq_iff rid j).0 same)) k)

IsKept-Extends :
    (d d' : Dict Request) (sid : String) (session : Session)
    → Extends d d'
    → IsKept d sid session
    → IsKept d' sid session
IsKept-Extends d d' sid session more k = record {
  own_id = k.own_id;
  held =
      All-IsHeld-Extends d d' session.session_id (owner_key session.identity) session.request_ids
        more k.held;
}

Each-IsKept-Extends :
    (d d' : Dict Request) (sessions : Dict Session)
    → Extends d d'
    → Each (IsKept d) sessions
    → Each (IsKept d') sessions
Each-IsKept-Extends d d' sessions more h =
    λ sid session e. IsKept-Extends d d' sid session more (h sid session e)

module _ (now : ℕ) (hex : String) (identity : Identity) (message : String) where
  -- The step that `create_session_and_request` and `continue_session` share.
  new_request_locked-IsWellFormed :
      (s : Store) (session : Session)
      → IsWellFormed s
      → Dict.get (String.◌++◌ "req_" hex) s.requests ≡ none
      → All (IsHeld s.requests session.session_id (owner_key session.identity)) session.request_ids
      → owner_key session.identity ≡ owner_key identity
      → IsWellFormed (new_request_locked now hex session identity message s).1
  unfolding new_request_locked
  new_request_locked-IsWellFormed s session w fresh held owner =
      let r = new_request now hex session identity message in
      let rid = String.◌++◌ "req_" hex in
      let more = Extends-put_fresh rid r s.requests fresh in
      let d' = Dict.put rid r s.requests in
      record {
        kept =
            Each-put (IsKept d') session.session_id _ s.sessions
              (record {
                own_id = refl;
                held =
                    All-append (IsHeld d' session.session_id (owner_key session.identity))
                      session.request_ids (rid ∷ [])
                      (All-IsHeld-Extends s.requests d' session.session_id
                        (owner_key session.identity) session.request_ids more held)
                      (
                        record {
                          request = r;
                          found = get-put_self rid r s.requests;
                          own_id = refl;
                          in_session = refl;
                          same_owner = sym owner;
                        },
                        tt,
                      );
              })
              (Each-IsKept-Extends s.requests d' s.sessions more w.kept);
      }

  -- Creating a session keeps the invariant, if the new request id is fresh.
  pub create_session_and_request-IsWellFormed :
      (session_id : String) (s : Store)
      → IsWellFormed s
      → Dict.get (String.◌++◌ "req_" hex) s.requests ≡ none
      → IsWellFormed (create_session_and_request now hex session_id identity message s).1
  unfolding create_session_and_request
  create_session_and_request-IsWellFormed session_id s w fresh =
      let session : Session = record {
        session_id = session_id;
        identity = identity;
        created_at = now;
        request_ids = [];
      } in
      new_request_locked-IsWellFormed
        (record s { sessions = Dict.put session_id session s.sessions }) session
        (record {
          kept =
              Each-put (IsKept s.requests) session_id session s.sessions
                (record { own_id = refl; held = tt }) w.kept;
        })
        fresh tt refl

  pub continue_session-IsWellFormed :
      (session_id : String) (s : Store)
      → IsWellFormed s
      → Dict.get (String.◌++◌ "req_" hex) s.requests ≡ none
      → IsWellFormed (continue_session now hex session_id identity message s).1
  unfolding continue_session
  continue_session-IsWellFormed session_id s w fresh =
      elim (Option-cases (Dict.get session_id s.sessions)) [
        | inl missing ↦ rw (missing, continue_session) w
        | inr (session, found) ↦
            elim (Bool-cases (str_eq (owner_key session.identity) (owner_key identity))) [
              | inl own ↦
                  rw (found, continue_session)
                    (rw own (
                      new_request_locked-IsWellFormed s session w fresh
                        (w.kept session_id session found).held ((eq_iff _ _).0 own)))
              | inr other ↦ rw (found, continue_session) (rw other w)
            ]
      ]

-- Changing the fields of a request keeps the invariant.
pub update_request-IsWellFormed :
    (now : ℕ) (rid : String) (fields : Fields) (s : Store)
    → IsWellFormed s
    → IsWellFormed (update_request now rid fields s).1
unfolding update_request
update_request-IsWellFormed now rid fields s w = elim (Option-cases (Dict.get rid s.requests)) [
  | inl missing ↦ rw (missing, update_request) w
  | inr (old, found) ↦
      rw (found, update_request)
        (record {
          kept =
              Each-IsKept-Extends s.requests _ s.sessions
                (Extends-set_fields now fields rid old s.requests found) w.kept;
        })
]

-- The empty store has no session.
pub empty-IsWellFormed : (evidence : Option Evidence) → IsWellFormed (empty evidence)
unfolding Dict.get
empty-IsWellFormed evidence = record { kept = λ sid session e. cc }
