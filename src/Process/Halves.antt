-- ===== src/Process/Halves.antt =====
-- The halves, taken at once, are the whole: the turn of worker.py and `_cancel_request` of server.py.
use pj_clusterintent.Prelude.{
  ℕ, String, Bool, true, Option, none, some, ◌≡◌, refl, Option-cases, Bool-cases, inl, inr,
  if◌then◌else◌,
}
use pj_clusterintent.Prelude.Dict
use pj_clusterintent.Prelude.Result.{Result-cases}
use pj_clusterintent.Evidence.{is_terminal}
use pj_clusterintent.Store.Model.{Request}
use pj_clusterintent.Store.{get_request}
use pj_clusterintent.Worker.{System, begin, is_queued, is_cancel_requested, clear_cancel}
use pj_clusterintent.Worker.Laws.{begin_cancelled, begin_started}
use pj_clusterintent.Server.{Call, cancel_request_handler, owns}
use pj_clusterintent.Process.{cancel_reads, cancel_writes, started_by}

abbrev write_if : ℕ → String → Option Bool → System → System
write_if now rid none y = y
write_if now rid (some marks) y = cancel_writes now rid marks y

cancel_in_halves :
    (rid : String) (c : Call) (y : System)
    → (cancel_request_handler rid c y).1 ≡ write_if c.now rid (cancel_reads rid c y) y
unfolding cancel_request_handler cancel_reads cancel_writes get_request
cancel_in_halves rid c y = elim (Result-cases c.caller) [
  | inl (e, p) ↦ rw (cancel_request_handler, cancel_reads, p) refl
  | inr (i, p) ↦ elim (Option-cases (Dict.get rid y.store.requests)) [
    | inl e ↦ rw (cancel_request_handler, cancel_reads, p, e) refl
    | inr (r, e) ↦ elim (Bool-cases (owns i r.identity)) [
      | inr o ↦ rw (cancel_request_handler, cancel_reads, p, e, o) refl
      | inl o ↦ elim (Bool-cases (is_terminal r.state)) [
        | inl t ↦ rw (cancel_request_handler, cancel_reads, p, e, o, t) refl
        | inr t ↦ elim (Bool-cases (is_queued r.state)) [
          | inl q ↦ rw (cancel_request_handler, cancel_reads, p, e, o, t, q) refl
          | inr q ↦ rw (cancel_request_handler, cancel_reads, p, e, o, t, q) refl
        ]
      ]
    ]
  ]
]

turn_in_halves :
    (now : ℕ) (rid : String) (y : System) (r : Request)
    → Dict.get rid y.store.requests ≡ some r
    → is_queued r.state ≡ true
    → (started_by now rid y).0 ≡ (
        if is_cancel_requested rid y
        then clear_cancel rid (begin now rid y).1
        else (begin now rid y).1)
unfolding started_by
turn_in_halves now rid y r found queued = elim (Bool-cases (is_cancel_requested rid y)) [
  | inl c ↦ rw (started_by, c, begin_cancelled now rid y r found queued c) refl
  | inr c ↦ rw (started_by, c, (begin_started now rid y r found queued c).1) refl
]
