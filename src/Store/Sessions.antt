-- ===== src/Store/Sessions.antt =====
-- What store.py answers about a session.
use Prim.Native.String
use pj_clusterintent.Prelude.{
  ℕ, String, ◌≡◌, refl, ◌⊎◌, some, List, [], ◌∷◌, map, str_eq, eq_iff, All, Option-cases,
  Bool-cases, inl, inr,
}
use mathlib.Core.Path.{subst}
use pj_clusterintent.Prelude.Dict
use pj_clusterintent.Prelude.Dict.{Dict, get-put_self}
use pj_clusterintent.Evidence.{RequestState}
use pj_clusterintent.Prelude.Result.{ok, err}
use pj_clusterintent.Store.Owner.{Identity, owner_key}
use pj_clusterintent.Store.Model.{Request, Session, Store, StoreError, not_found, not_owner}
use pj_clusterintent.Store.{continue_session, new_request, lookup_all, list_session_requests}
use pj_clusterintent.Store.WellFormed.{IsHeld, IsWellFormed}

abbrev pub BelongsTo : (sid owner : String) → Request → Type 0
BelongsTo sid owner r = (r.session_id ≡ sid) × (owner_key r.identity ≡ owner)

lookup_all_lem :
    (d : Dict Request) (sid owner : String) (rids : List String)
    → All (IsHeld d sid owner) rids
    → (rs : List Request) × (lookup_all d rids ≡ ok rs)
      × (map (λ r. r.request_id) rs ≡ rids)
      × All (BelongsTo sid owner) rs
unfolding lookup_all
lookup_all_lem d sid owner [] h = ([], refl, refl, tt)
lookup_all_lem d sid owner (rid ∷ rids) (h, hs) =
    let (rs, found, ids, all) = lookup_all_lem d sid owner rids hs in
    (
      h.request ∷ rs,
      rw (h.found, lookup_all) (rw found),
      cc (h.own_id),
      ((h.in_session, h.same_owner), all),
    )

-- In a well-formed store a session that is there lists all its requests, in order and without a
-- KeyError, and each belongs to the session and to its owner.
pub list_session_requests_total :
    (sid : String) (session : Session) (s : Store)
    → IsWellFormed s
    → Dict.get sid s.sessions ≡ some session
    → (rs : List Request) × (list_session_requests sid s ≡ ok rs)
      × (map (λ r. r.request_id) rs ≡ session.request_ids)
      × All (BelongsTo sid (owner_key session.identity)) rs
unfolding list_session_requests
list_session_requests_total sid session s w found =
    let k = w.kept sid session found in
    let (rs, listed, ids, all) =
      lookup_all_lem s.requests session.session_id (owner_key session.identity) session.request_ids
        k.held in
    (
      rs,
      rw (found, list_session_requests) listed,
      ids,
      subst (λ x. All (BelongsTo x (owner_key session.identity)) rs) k.own_id all,
    )

-- In a well-formed store `continue_session` either raises and leaves the store as it was, or the
-- session is there and its owner is the caller's; the queued request that it returns then stands
-- in the store, in that session, and is the caller's.
continue_session_safe :
    (now : ℕ) (hex sid : String) (identity : Identity) (message : String) (s : Store)
    → IsWellFormed s
    → ((e : StoreError) × (continue_session now hex sid identity message s ≡ (err e, s)))
      ⊎ ((session : Session) × (r : Request) × (Dict.get sid s.sessions ≡ some session)
          × (owner_key session.identity ≡ owner_key identity)
          × ((continue_session now hex sid identity message s).0 ≡ ok r)
          × (Dict.get r.request_id (continue_session now hex sid identity message s).1.requests
              ≡ some r)
          × BelongsTo sid (owner_key identity) r
          × (r.state ≡ RequestState.queued))
unfolding continue_session
continue_session_safe now hex sid identity message s w =
    elim (Option-cases (Dict.get sid s.sessions)) [
      | inl missing ↦
          inl (not_found (String.◌++◌ "session not found: " sid), rw (missing, continue_session))
      | inr (session, found) ↦
          elim (Bool-cases (str_eq (owner_key session.identity) (owner_key identity))) [
            | inl own ↦ inr (
              session,
              new_request now hex session identity message,
              found,
              (eq_iff _ _).0 own,
              rw (found, continue_session) (rw own refl),
              rw (found, continue_session) (rw own (get-put_self _ _ s.requests)),
              ((w.kept sid session found).own_id, refl),
              refl,
            )
            | inr other ↦ inl (not_owner, rw (found, continue_session) (rw other refl))
          ]
    ]
