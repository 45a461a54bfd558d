-- ===== src/Process/Turns.antt =====
-- What the halves of a turn and of a cancel do to the requests of the store, and to the worker.
use pj_clusterintent.Prelude.{
  ℕ, String, Bool, true, false, Option, none, some, ◌≡◌, refl, sym, ap, ◌∙◌, ◌⊎◌, inl, inr,
  Bool-cases, Option-cases, some_inj,
}
use pj_clusterintent.Prelude.Dict
use pj_clusterintent.Prelude.Dict.{Dict}
use pj_clusterintent.Evidence.{RequestState, is_terminal}
use pj_clusterintent.Store.Model.{Request, Fields}
use pj_clusterintent.Store.{update_request, set_fields, get_request}
use pj_clusterintent.Worker.{
  System, TurnResult, finish, update, crashed, fields_of, to_state, is_queued, is_cancel_requested,
}
use pj_clusterintent.Process.{Activity, request_of, taken_by, started_by, cancel_writes, IsOutcome}
use pj_clusterintent.Process.Handled.{is_running, requests-update}

-- The request does not wait any more.
abbrev pub IsUnqueued : String → Dict Request → Type 0
IsUnqueued rid d = (r : Request) → Dict.get rid d ≡ some r → is_queued r.state ≡ false

pub update_missing :
    (now : ℕ) (rid : String) (fields : Fields) (y : System)
    → Dict.get rid y.store.requests ≡ none
    → (update now rid fields y).store.requests ≡ y.store.requests
unfolding update_request
update_missing now rid fields y missing = rw (missing, update_request) refl

-- The worker holds a queued request, or is done with one that does not wait.
abbrev pub IsTaken : String → System → System × Activity → Type 0
IsTaken rid y (z, activity) =
    (z.store ≡ y.store)
    × (z.queue ≡ y.queue)
    × (((r : Request) × (Dict.get rid y.store.requests ≡ some r)
          × (is_queued r.state ≡ true)
          × (request_of activity ≡ some rid))
        ⊎ (IsUnqueued rid y.store.requests × (request_of activity ≡ none)))

pub taken_by_lem : (rid : String) (y : System) → IsTaken rid y (taken_by rid y)
unfolding taken_by get_request
taken_by_lem rid y = elim (Option-cases (Dict.get rid y.store.requests)) [
  | inl missing ↦ rw (taken_by, missing) (refl, refl, inr (λ r h. cc, refl))
  | inr (r, found) ↦ elim (Bool-cases (is_queued r.state)) [
    | inl queued ↦ rw (taken_by, found, queued) (refl, refl, inl (r, refl, queued, refl))
    | inr settled ↦
        rw (taken_by, found, settled)
          (
            refl,
            refl,
            inr (λ x h. ap (λ (k : Request). is_queued k.state) (some_inj (sym h)) ∙ settled, refl),
          )
  ]
]

-- The request is written; it is cancelled and the worker is done, or it runs and the worker has it.
abbrev pub IsStarted : String → System → System × Activity → Type 0
IsStarted rid y (z, activity) =
    (x : Request) × (z.store.requests ≡ Dict.put rid x y.store.requests)
    × (z.queue ≡ y.queue)
    × (((is_terminal x.state ≡ true) × (request_of activity ≡ none))
        ⊎ ((is_running x.state ≡ true) × (request_of activity ≡ some rid)))

pub started_by_lem :
    (now : ℕ) (rid : String) (y : System) (old : Request)
    → Dict.get rid y.store.requests ≡ some old
    → IsStarted rid y (started_by now rid y)
unfolding started_by set_fields
started_by_lem now rid y old found = elim (Bool-cases (is_cancel_requested rid y)) [
  | inl cancelled ↦
      rw (started_by, cancelled)
        (
          _,
          requests-update now rid (to_state RequestState.cancelled) y old found,
          refl,
          inl (refl, refl),
        )
  | inr free ↦
      rw (started_by, free)
        (
          _,
          requests-update now rid (to_state RequestState.running) y old found,
          refl,
          inr (refl, refl),
        )
]

-- A cancel leaves the requests alone, or marks its own one; it leaves the queue alone.
abbrev pub IsCancelled : String → (marks : Bool) → System → System → Type 0
IsCancelled rid marks y z =
    (z.queue ≡ y.queue)
    × ((z.store.requests ≡ y.store.requests)
        ⊎ ((x : Request) × (z.store.requests ≡ Dict.put rid x y.store.requests)
            × (marks ≡ true)
            × (is_terminal x.state ≡ true)))

pub cancel_writes_lem :
    (now : ℕ) (rid : String) (marks : Bool) (y : System)
    → IsCancelled rid marks y (cancel_writes now rid marks y)
unfolding cancel_writes set_fields
cancel_writes_lem now rid true y = elim (Option-cases (Dict.get rid y.store.requests)) [
  | inl missing ↦ (refl, inl (update_missing now rid (to_state RequestState.cancelled) y missing))
  | inr (r, found) ↦ (
    refl,
    inr (_, requests-update now rid (to_state RequestState.cancelled) y r found, refl, refl),
  )
]
cancel_writes_lem now rid false y = elim (Bool-cases (is_cancel_requested rid y)) [
  | inl flagged ↦ rw (cancel_writes, flagged) (refl, inl refl)
  | inr unflagged ↦ rw (cancel_writes, unflagged) (refl, inl refl)
]

pub finish_ends :
    (now : ℕ) (rid : String) (outcome : Option TurnResult) (y : System) (old : Request)
    → Dict.get rid y.store.requests ≡ some old
    → IsOutcome outcome
    → (r : Request) × ((finish now rid outcome y).store.requests ≡ Dict.put rid r y.store.requests)
      × (is_terminal r.state ≡ true)
unfolding set_fields fields_of
finish_ends now rid none y old found h = (_, requests-update now rid crashed y old found, refl)
finish_ends now rid (some result) y old found h =
    (_, requests-update now rid (fields_of result) y old found, h)

pub finish_queue :
    (now : ℕ) (rid : String) (outcome : Option TurnResult) (y : System)
    → (finish now rid outcome y).queue ≡ y.queue
finish_queue now rid none y = refl
finish_queue now rid (some result) y = refl
