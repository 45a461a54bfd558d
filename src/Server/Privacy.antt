-- ===== src/Server/Privacy.antt =====
-- Who may read, continue and cancel what: the ownership checks of server.py.
use pj_clusterintent.Prelude.{
  String, false, none, some, List, [], ◌∷◌, ◌≡◌, ◌≢◌, sym, ap, ◌∙◌, ◌⊎◌, inl, inr, arith,
  Bool-cases, Option-cases, eq_iff, All, not, ◌&&◌,
}
use mathlib.Core.Path.{subst}
use pj_clusterintent.Prelude.Dict
use pj_clusterintent.Prelude.Result.{ok, Result-cases, ok_inj}
use pj_clusterintent.Store.Owner.{Identity, owner_key}
use pj_clusterintent.Store.Model.{Request, Session, Store}
use pj_clusterintent.Store.{get_request, list_session_requests, list_sessions}
use pj_clusterintent.Store.WellFormed.{IsWellFormed}
use pj_clusterintent.Store.Sessions.{BelongsTo, list_session_requests_total}
use pj_clusterintent.Worker.{System}
use pj_clusterintent.Server.{
  Answer, Call, is_human, owns, get_request_handler, cancel_request_handler, list_sessions_handler,
  list_session_requests_handler, owned_sessions, first_is_foreign,
}

-- The caller may see what this owner has.
abbrev pub MaySee : Identity → Identity → Type 0
MaySee caller owner = (caller.identity_class ≡ "human") ⊎ (owner_key owner ≡ owner_key caller)

may_see : (i o : Identity) → (not (is_human i) && not (owns i o)) ≡ false → MaySee i o
may_see i o h = elim (Bool-cases (is_human i)) [
  | inl e ↦ inl ((eq_iff i.identity_class "human").0 e)
  | inr e ↦ inr ((eq_iff (owner_key o) (owner_key i)).0 (ground arith))
]

-- A request that is shown is the one asked for, and its owner or the human operator asked.
pub get_request_is_private :
    (rid : String) (c : Call) (y : System) (r : Request)
    → (get_request_handler rid c y).0 ≡ ok (Answer.request r)
    → (Dict.get rid y.store.requests ≡ some r)
      × ((i : Identity) × (c.caller ≡ ok i) × MaySee i r.identity)
unfolding get_request_handler get_request
get_request_is_private rid c y r h = elim (Result-cases c.caller) [
  | inl (e, p) ↦ ground arith
  | inr (i, p) ↦ elim (Option-cases (Dict.get rid y.store.requests)) [
    | inl q ↦ ground arith
    | inr (r', q) ↦ elim (Bool-cases (not (is_human i) && not (owns i r'.identity))) [
      | inl n ↦ ground arith
      | inr n ↦
          let same : r' ≡ r = ground arith in
          (
            q ∙ ap some same,
            (i, p, subst (λ x. MaySee i x.identity) same (may_see i r'.identity n)),
          )
    ]
  ]
]

-- A cancel that is not refused comes from the owner of the request; being the operator is not enough.
pub cancel_is_private :
    (rid : String) (c : Call) (y : System) (a : Answer)
    → (cancel_request_handler rid c y).0 ≡ ok a
    → (r : Request) × (Dict.get rid y.store.requests ≡ some r)
      × ((i : Identity) × (c.caller ≡ ok i) × (owner_key r.identity ≡ owner_key i))
unfolding cancel_request_handler get_request
cancel_is_private rid c y a h = elim (Result-cases c.caller) [
  | inl (e, p) ↦ ground arith
  | inr (i, p) ↦ elim (Option-cases (Dict.get rid y.store.requests)) [
    | inl q ↦ ground arith
    | inr (r, q) ↦ elim (Bool-cases (owns i r.identity)) [
      | inl n ↦ (r, q, (i, p, (eq_iff (owner_key r.identity) (owner_key i)).0 n))
      | inr n ↦ ground arith
    ]
  ]
]

owned_sessions-All :
    (i : Identity) (ss : List Session)
    → All (λ s. owner_key s.identity ≡ owner_key i) (owned_sessions i ss)
unfolding owned_sessions
owned_sessions-All i [] = tt
owned_sessions-All i (s ∷ ss) = elim (Bool-cases (owns i s.identity)) [
  | inl e ↦ rw e ((eq_iff (owner_key s.identity) (owner_key i)).0 e, owned_sessions-All i ss)
  | inr e ↦ rw e (owned_sessions-All i ss)
]

-- A caller who is not the operator is shown no session but its own.
pub list_sessions_is_private :
    (c : Call) (y : System) (i : Identity) (ss : List Session)
    → c.caller ≡ ok i
    → is_human i ≡ false
    → (list_sessions_handler c y).0 ≡ ok (Answer.sessions ss)
    → All (λ s. owner_key s.identity ≡ owner_key i) ss
unfolding list_sessions_handler
list_sessions_is_private c y i ss p n h =
    let same : owned_sessions i (list_sessions y.store) ≡ ss = ground arith in
    subst (All (λ s. owner_key s.identity ≡ owner_key i)) same
      (owned_sessions-All i (list_sessions y.store))

All-owner :
    (sid o k : String) (rs : List Request)
    → o ≡ k
    → All (BelongsTo sid o) rs
    → All (λ r. owner_key r.identity ≡ k) rs
All-owner sid o k [] e h = tt
All-owner sid o k (r ∷ rs) e (h, hs) = (h.1 ∙ e, All-owner sid o k rs e hs)

-- What the handler has done when it answers with requests.
answered :
    (sid : String) (c : Call) (y : System) (i : Identity) (rs : List Request)
    → c.caller ≡ ok i
    → (list_session_requests_handler sid c y).0 ≡ ok (Answer.requests rs)
    → (list_session_requests sid y.store ≡ ok rs) × (first_is_foreign i rs ≡ false)
unfolding list_session_requests_handler
answered sid c y i rs p h = elim (Result-cases (list_session_requests sid y.store)) [
  | inl (e, q) ↦ ground arith
  | inr (listed, q) ↦ elim (Bool-cases (first_is_foreign i listed)) [
    | inl f ↦ ground arith
    | inr f ↦
        let same : listed ≡ rs = ground arith in
        (q ∙ ap ok same, ap (first_is_foreign i) (sym same) ∙ f)
  ]
]

no_session :
    (sid : String) (s : Store) (rs : List Request)
    → Dict.get sid s.sessions ≡ none
    → list_session_requests sid s ≢ ok rs
unfolding list_session_requests
no_session sid s rs q h = ground arith

-- The handler looks at the first request of a session only. In a well-formed store that is enough:
-- every request that a caller other than the operator is shown is its own.
pub list_session_requests_is_private :
    (sid : String) (c : Call) (y : System) (i : Identity) (rs : List Request)
    → IsWellFormed y.store
    → c.caller ≡ ok i
    → is_human i ≡ false
    → (list_session_requests_handler sid c y).0 ≡ ok (Answer.requests rs)
    → All (λ r. owner_key r.identity ≡ owner_key i) rs
list_session_requests_is_private sid c y i [] w p n h = tt
list_session_requests_is_private sid c y i (r ∷ rs) w p n h =
    let (found, mine) = answered sid c y i (r ∷ rs) p h in
    elim (Option-cases (Dict.get sid y.store.sessions)) [
      | inl q ↦ elim (no_session sid y.store (r ∷ rs) q found) [ ]
      | inr (session, q) ↦
          let (listed, found', ids, all) = list_session_requests_total sid session y.store w q in
          let same : listed ≡ r ∷ rs = ok_inj (sym found' ∙ found) in
          let all' = subst (All (BelongsTo sid (owner_key session.identity))) same all in
          let owner : owner_key r.identity ≡ owner_key i =
            (eq_iff (owner_key r.identity) (owner_key i)).0 (ground arith) in
          All-owner sid (owner_key session.identity) (owner_key i) (r ∷ rs) (sym all'.0.1 ∙ owner)
            all'
    ]
