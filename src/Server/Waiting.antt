-- ===== src/Server/Waiting.antt =====
-- The handlers of server.py that take a request, and the queued requests that stand in the queue.
use pj_clusterintent.Prelude.{
  ℕ, String, true, false, some, List, [], ◌∷◌, ◌++◌, ◌≡◌, ◌≢◌, refl, sym, ap, ◌∙◌, inl, inr, arith,
  Bool-cases, Option-cases, str_eq, eq_iff, Among, Among-append_last, some_inj,
}
use mathlib.Core.Path.{subst}
use Prim.Native.String
use pj_clusterintent.Prelude.Dict
use pj_clusterintent.Prelude.Dict.{get-put}
use pj_clusterintent.Prelude.Result.{ok, err, Result-cases, ok_inj}
use pj_clusterintent.Evidence.{RequestState, is_terminal}
use pj_clusterintent.Store.Owner.{Identity, owner_key}
use pj_clusterintent.Store.Model.{Request, Session, Store, StoreError}
use pj_clusterintent.Store.{
  update_request, set_fields, create_session_and_request, continue_session, new_request_locked,
  new_request, get_request,
}
use pj_clusterintent.Worker.{System, to_state, is_queued, request_cancel, is_cancel_requested}
use pj_clusterintent.Server.{
  Call, start_request, create_request, create_window_request, continue_session_handler,
  cancel_request_handler, message_of, window_text_of, owns,
}

-- Every queued request of the store stands in the queue.
abbrev pub IsWaiting : Store → List String → Type 0
IsWaiting s queue =
    (rid : String) (r : Request)
    → Dict.get rid s.requests ≡ some r
    → is_queued r.state ≡ true
    → Among rid queue

pub Among-append : (x z : String) (xs : List String) → Among x xs → Among x (xs ++ z ∷ [])
Among-append x z [] m = elim m [ ]
Among-append x z (y ∷ xs) (inl e) = inl e
Among-append x z (y ∷ xs) (inr m) = inr (Among-append x z xs m)

pub false_is_not_true : false ≢ true
false_is_not_true h = cc

pub update-IsWaiting :
    (now : ℕ) (rid : String) (state : RequestState) (s : Store) (queue : List String)
    → is_queued state ≡ false
    → IsWaiting s queue
    → IsWaiting (update_request now rid (to_state state) s).1 queue
unfolding update_request set_fields
update-IsWaiting now rid state s queue n w j r found queued =
    elim (Option-cases (Dict.get rid s.requests)) [
      | inl e ↦ w j r (rw (e, update_request) at found) queued
      | inr (old, e) ↦ elim (Bool-cases (str_eq rid j)) [
        | inl same ↦
            let mine : set_fields now (to_state state) old ≡ r =
              some_inj (rw (e, update_request, get-put, same) at found) in
            elim (false_is_not_true (sym n ∙ ap (λ x. is_queued x.state) mine ∙ queued)) [ ]
        | inr other ↦ w j r (rw (e, update_request, get-put, other) at found) queued
      ]
    ]

new_request_locked-IsWaiting :
    (now : ℕ) (hex : String) (session : Session) (i : Identity) (message : String) (s : Store)
    (queue : List String)
    → IsWaiting s queue
    → IsWaiting
        (new_request_locked now hex session i message s).1
        (queue ++ String.◌++◌ "req_" hex ∷ [])
unfolding new_request_locked
new_request_locked-IsWaiting now hex session i message s queue w j r found queued =
    elim (Bool-cases (str_eq (String.◌++◌ "req_" hex) j)) [
      | inl same ↦
          subst (λ x. Among x (queue ++ String.◌++◌ "req_" hex ∷ []))
            ((eq_iff (String.◌++◌ "req_" hex) j).0 same)
            (Among-append_last (String.◌++◌ "req_" hex) queue)
      | inr other ↦
          Among-append j (String.◌++◌ "req_" hex) queue
            (w j r (rw (get-put, other) at found) queued)
    ]

abbrev pub IsWaitingIn : System → Type 0
IsWaitingIn y = IsWaiting y.store y.queue

start_request-IsWaiting :
    (c : Call) (message : String) (y : System)
    → IsWaitingIn y
    → IsWaitingIn (start_request c message y).1
unfolding start_request create_session_and_request new_request_locked
start_request-IsWaiting c message y w = elim (Result-cases c.caller) [
  | inl (e, p) ↦ rw (start_request, p) w
  | inr (i, p) ↦
      rw (start_request, p)
        (new_request_locked-IsWaiting c.now c.hex
          (record { session_id = c.session_id; identity = i; created_at = c.now; request_ids = [] })
          i message
          (record y.store {
            sessions =
                Dict.put c.session_id
                  (record {
                    session_id = c.session_id;
                    identity = i;
                    created_at = c.now;
                    request_ids = [];
                  })
                  y.store.sessions;
          })
          y.queue w)
]

pub create_request-IsWaiting :
    (c : Call) (y : System) → IsWaitingIn y → IsWaitingIn (create_request c y).1
unfolding create_request
create_request-IsWaiting c y w = elim (Result-cases (message_of c.body)) [
  | inl (e, p) ↦ rw (create_request, p) w
  | inr (m, p) ↦ rw (create_request, p) (start_request-IsWaiting c m y w)
]

pub create_window_request-IsWaiting :
    (c : Call) (y : System) → IsWaitingIn y → IsWaitingIn (create_window_request c y).1
unfolding create_window_request
create_window_request-IsWaiting c y w = elim (Result-cases (window_text_of c.body)) [
  | inl (e, p) ↦ rw (create_window_request, p) w
  | inr (m, p) ↦ rw (create_window_request, p) (start_request-IsWaiting c m y w)
]

continue_session_refused :
    (now : ℕ) (hex sid : String) (i : Identity) (message : String) (s : Store) (e : StoreError)
    → (continue_session now hex sid i message s).0 ≡ err e
    → continue_session now hex sid i message s ≡ (err e, s)
unfolding continue_session
continue_session_refused now hex sid i message s e h = ground arith

continue_session-IsWaiting :
    (now : ℕ) (hex sid : String) (i : Identity) (message : String) (s : Store) (queue : List String)
    (r : Request)
    → (continue_session now hex sid i message s).0 ≡ ok r
    → IsWaiting s queue
    → IsWaiting (continue_session now hex sid i message s).1 (queue ++ r.request_id ∷ [])
unfolding continue_session new_request_locked new_request
continue_session-IsWaiting now hex sid i message s queue r h w =
    elim (Option-cases (Dict.get sid s.sessions)) [
      | inl e ↦ ground arith
      | inr (session, e) ↦ elim (Bool-cases (str_eq (owner_key session.identity) (owner_key i))) [
        | inr o ↦ ground arith
        | inl o ↦
            let same : (new_request_locked now hex session i message s).0 ≡ r =
              ok_inj (rw (e, continue_session, o) at h) in
            rw (continue_session, e, o)
              (subst
                (λ x.
                  IsWaiting (new_request_locked now hex session i message s).1
                    (queue ++ x.request_id ∷ []))
                same (new_request_locked-IsWaiting now hex session i message s queue w))
      ]
    ]

pub continue_session_handler-IsWaiting :
    (sid : String) (c : Call) (y : System)
    → IsWaitingIn y
    → IsWaitingIn (continue_session_handler sid c y).1
unfolding continue_session_handler
continue_session_handler-IsWaiting sid c y w = elim (Result-cases c.caller) [
  | inl (e, p) ↦ rw (continue_session_handler, p) w
  | inr (i, p) ↦ elim (Result-cases (message_of c.body)) [
    | inl (e, q) ↦ rw (continue_session_handler, p, q) w
    | inr (m, q) ↦ elim (Result-cases (continue_session c.now c.hex sid i m y.store).0) [
      | inl (e, o) ↦
          rw (continue_session_handler, p, q, o)
            (subst (λ x. IsWaiting x.1 y.queue)
              (sym (continue_session_refused c.now c.hex sid i m y.store e o)) w)
      | inr (r, o) ↦
          rw (continue_session_handler, p, q, o)
            (continue_session-IsWaiting c.now c.hex sid i m y.store y.queue r o w)
    ]
  ]
]

request_cancel-IsWaiting :
    (rid : String) (y : System) → IsWaitingIn y → IsWaitingIn (request_cancel rid y)
request_cancel-IsWaiting rid y w = elim (Bool-cases (is_cancel_requested rid y)) [
  | inl e ↦ rw e w
  | inr e ↦ rw e w
]

pub cancel_request_handler-IsWaiting :
    (rid : String) (c : Call) (y : System)
    → IsWaitingIn y
    → IsWaitingIn (cancel_request_handler rid c y).1
unfolding cancel_request_handler get_request
cancel_request_handler-IsWaiting rid c y w = elim (Result-cases c.caller) [
  | inl (e, p) ↦ rw (cancel_request_handler, p) w
  | inr (i, p) ↦ elim (Result-cases (get_request rid y.store)) [
    | inl (e, q) ↦ rw (cancel_request_handler, p, q) w
    | inr (r, q) ↦ elim (Bool-cases (owns i r.identity)) [
      | inr o ↦ rw (cancel_request_handler, p, q, o) w
      | inl o ↦ elim (Bool-cases (is_terminal r.state)) [
        | inl t ↦ rw (cancel_request_handler, p, q, o, t) w
        | inr t ↦ elim (Bool-cases (is_queued r.state)) [
          | inl d ↦
              rw (cancel_request_handler, p, q, o, t, d)
                (update-IsWaiting c.now rid RequestState.cancelled y.store y.queue refl w)
          | inr d ↦ rw (cancel_request_handler, p, q, o, t, d) (request_cancel-IsWaiting rid y w)
        ]
      ]
    ]
  ]
]
