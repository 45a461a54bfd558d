-- ===== src/Process/Waiting.antt =====
-- No step of the process loses a request.
use pj_clusterintent.Prelude.{
  ℕ, String, true, Option, Bool, none, some, List, ◌∷◌, [], ◌++◌, ◌≡◌, refl, sym, ap, ◌∙◌, ◌⊎◌, inl,
  inr, Bool-cases, some_inj, Among, Among-append_last,
}
use mathlib.Core.Path.{subst}
use pj_clusterintent.Prelude.Dict
use pj_clusterintent.Prelude.Dict.{get-put}
use pj_clusterintent.Evidence.{RequestState, is_terminal}
use pj_clusterintent.Store.Model.{Request, Store}
use pj_clusterintent.Worker.{System, is_queued, finish, clear_cancel, TurnResult}
use pj_clusterintent.Server.{do_post}
use pj_clusterintent.Server.Waiting.{Among-append}
use pj_clusterintent.Process.{
  Entrance, Activity, Process, system, put_system, IsOutcome, door_of, post, take_head, begin_turn,
  end_turn, read_cancel, write_cancel, cancel_writes, taken_by, started_by, request_of, Step,
  posted, cancel_read, cancel_written, taken, started, ended, Steps, here, next,
}
use pj_clusterintent.Process.Written.{same-IsFair, put-IsFair, put_lasts, put_before, put-IsOver}
use pj_clusterintent.Process.Fair.{IsFair, IsOver, fair-IsTurning, fair-IsAwaited}
use pj_clusterintent.Process.Handled.{IsHandledIn, is_running, do_post-IsHandledIn}
use pj_clusterintent.Process.Turns.{
  IsUnqueued, IsTaken, IsStarted, taken_by_lem, started_by_lem, cancel_writes_lem, finish_ends,
  finish_queue,
}
use pj_clusterintent.Process.Turning.{
  IsTurning, IsAwaited, requests, busy, queue, running_not_queued, terminal_not_queued,
  terminal_not_running,
}

module _ (d : Entrance) (p : Process) (t : IsTurning p) where
  -- A handler that leaves the worker at what it is at.
  handled-IsFair : (z : System) → IsHandledIn (system d p) z → IsFair d p z (p.lanes d).activity
  handled-IsFair z (inl (same, queue_same)) =
      same-IsFair d p z (p.lanes d).activity (t.0 d) same (λ rid h. h)
        (λ rid m. inl (rw queue_same m))
  handled-IsFair z (inr (k, x, put, unbegun, quiet, queue_is)) =
      elim (Bool-cases (is_queued x.state)) [
        | inr unqueued ↦
            put-IsFair d p z (p.lanes d).activity (t.0 d) k x put unqueued (λ run. cc (quiet, run))
              (rw unqueued at queue_is) (λ rid h. inl h)
        | inl queued ↦
            let behind : z.queue ≡ queue p d ++ k ∷ [] = rw queued at queue_is in
            let before = put_before d p z (p.lanes d).activity (t.0 d) k x put in
            record {
              lasts = put_lasts d p z (p.lanes d).activity (t.0 d) k x put;
              runs = λ rid r found run. elim (before rid r found) [
                | inl was ↦ inl was
                | inr (k_is, x_is) ↦ cc (ap (λ (v : Request). is_running v.state) x_is, quiet, run)
              ];
              waits = λ rid r found waits. elim (before rid r found) [
                | inl was ↦ inl was
                | inr (k_is, x_is) ↦ inr (
                    rw behind (
                      subst (λ j. Among j (queue p d ++ k ∷ [])) k_is
                        (Among-append_last k (queue p d))))
              ];
              frees = λ rid h. inl h;
              takes = λ rid m. inl (rw behind (Among-append rid k (queue p d) m));
              known = t.0 d;
            }
      ]

  cancelled-IsFair :
      (now : ℕ) (rid : String) (marks : Bool)
      → IsFair d p (cancel_writes now rid marks (system d p)) (p.lanes d).activity
  cancelled-IsFair now rid marks =
      let z = cancel_writes now rid marks (system d p) in
      let (queue_same, effect) = cancel_writes_lem now rid marks (system d p) in
      elim effect [
        | inl same ↦
            same-IsFair d p z (p.lanes d).activity (t.0 d) same (λ j h. h)
              (λ j m. inl (rw queue_same m))
        | inr (x, put, marking, over) ↦
            put-IsFair d p z (p.lanes d).activity (t.0 d) rid x put
              (terminal_not_queued x.state over)
              (λ run. cc (terminal_not_running x.state over, run)) queue_same (λ j h. inl h)
      ]

  taken-IsFair :
      (rid : String) (rest : List String) (b : System × Activity)
      → queue p d ≡ rid ∷ rest
      → busy p d ≡ none
      → IsTaken rid (record (system d p) { queue = rest }) b
      → IsFair d p b.0 b.1
  taken-IsFair rid rest (z, activity) waits idle
        (store_same, queue_same, inl (r, found, queued, has)) =
      same-IsFair d p z activity
        (λ j h. (r, ap (λ k. Dict.get k (requests p)) (some_inj (sym h ∙ has)) ∙ found))
        (ap (λ (s : Store). s.requests) store_same) (λ j h. cc (idle, h))
        (λ j m. head_or_rest j (subst (Among j) waits m))
    where
      head_or_rest :
          (j : String)
          → Among j (rid ∷ rest)
          → Among j z.queue ⊎ ((request_of activity ≡ some j) ⊎ IsUnqueued j z.store.requests)
      head_or_rest j (inr m) = inl (rw queue_same m)
      head_or_rest j (inl e) = inr (inl (has ∙ ap some (sym e)))
  taken-IsFair rid rest (z, activity) waits idle (store_same, queue_same, inr (settled, has)) =
      same-IsFair d p z activity (λ j h. cc (has, h)) (ap (λ (s : Store). s.requests) store_same)
        (λ j h. cc (idle, h)) (λ j m. head_or_rest j (subst (Among j) waits m))
    where
      head_or_rest :
          (j : String)
          → Among j (rid ∷ rest)
          → Among j z.queue ⊎ ((request_of activity ≡ some j) ⊎ IsUnqueued j z.store.requests)
      head_or_rest j (inr m) = inl (rw queue_same m)
      head_or_rest j (inl e) =
          inr (inr (λ r found. settled r (rw (sym e) (rw (sym store_same) found))))

  module _ (rid : String) (mine : busy p d ≡ some rid) where
    started-IsFair : (b : System × Activity) → IsStarted rid (system d p) b → IsFair d p b.0 b.1
    started-IsFair (z, activity) (x, put, queue_same, inl (over, has)) =
        put-IsFair d p z activity (λ j h. cc (has, h)) rid x put (terminal_not_queued x.state over)
          (λ run. cc (terminal_not_running x.state over, run)) queue_same
          (λ j h. inr (
            subst (λ k. IsOver k z.store.requests) (some_inj (sym mine ∙ h))
              (put-IsOver d p z activity (λ k g. cc (has, g)) rid x put over)))
    started-IsFair (z, activity) (x, put, queue_same, inr (run, has)) =
        put-IsFair d p z activity (λ j h. t.0 d j (mine ∙ sym has ∙ h)) rid x put
          (running_not_queued x.state run) (λ _. has) queue_same (λ j h. inl (has ∙ sym mine ∙ h))

    ended-IsFair :
        (now : ℕ) (outcome : Option TurnResult)
        → IsOutcome outcome
        → IsFair d p (clear_cancel rid (finish now rid outcome (system d p))) Activity.idle
    ended-IsFair now outcome fine =
        let (old, found) = t.0 d rid mine in
        let (x, put, over) = finish_ends now rid outcome (system d p) old found fine in
        started-IsFair (clear_cancel rid (finish now rid outcome (system d p)), Activity.idle)
          (x, put, finish_queue now rid outcome (system d p), inl (over, refl))

both :
    (d : Entrance) (p : Process) (z : System) (activity : Activity)
    → IsFair d p z activity
    → IsTurning p
    → IsAwaited p
    → IsTurning (put_system d z activity p) × IsAwaited (put_system d z activity p)
both d p z activity fair t a =
    (fair-IsTurning d p z activity fair t, fair-IsAwaited d p z activity fair a)

Step-keeps : {p q : Process} → Step p q → IsTurning p → IsAwaited p → IsTurning q × IsAwaited q
unfolding post take_head begin_turn end_turn read_cancel write_cancel
Step-keeps {p} (posted d path c fresh) t a =
    let z = (do_post (door_of d) path c (system d p)).1 in
    let fair = handled-IsFair d p t z (do_post-IsHandledIn (door_of d) path c (system d p) fresh) in
    both d p z (p.lanes d).activity fair t a
Step-keeps {p} (cancel_read d rid c marks sees) t a = (t, a)
Step-keeps {p} (cancel_written now c before behind stands) t a =
    let rest : Process = record p { cancels = before ++ behind } in
    both c.entrance rest (cancel_writes now c.request_id c.marks (system c.entrance p))
      (p.lanes c.entrance).activity (cancelled-IsFair c.entrance rest t now c.request_id c.marks) t
      a
Step-keeps {p} (taken d rid rest waits idle) t a =
    let b = taken_by rid (record (system d p) { queue = rest }) in
    both d p b.0 b.1
      (taken-IsFair d p t rid rest b waits (ap request_of idle)
        (taken_by_lem rid (record (system d p) { queue = rest })))
      t a
Step-keeps {p} (started d now rid holds) t a =
    let b = started_by now rid (system d p) in
    let (old, found) = t.0 d rid (ap request_of holds) in
    both d p b.0 b.1
      (started-IsFair d p t rid (ap request_of holds) b
        (started_by_lem now rid (system d p) old found))
      t a
Step-keeps {p} (ended d now rid outcome runs fine) t a =
    both d p (clear_cancel rid (finish now rid outcome (system d p))) Activity.idle
      (ended-IsFair d p t rid (ap request_of runs) now outcome fine) t a

pub Steps-keeps :
    {p q : Process} → Steps p q → IsTurning p → IsAwaited p → IsTurning q × IsAwaited q
Steps-keeps here t a = (t, a)
Steps-keeps (next r s) t a = let (t', a') = Steps-keeps r t a in Step-keeps s t' a'

state_cases :
    (s : RequestState) → (is_terminal s ≡ true) ⊎ ((is_running s ≡ true) ⊎ (is_queued s ≡ true))
state_cases RequestState.queued = inr (inr refl)
state_cases RequestState.running = inr (inl refl)
state_cases RequestState.completed = inl refl
state_cases RequestState.failed = inl refl
state_cases RequestState.cancelled = inl refl
state_cases RequestState.interrupted = inl refl

-- In every run of the process, from one whose workers hold requests of the store, whose running requests
-- are in the hands of its workers and whose queued ones stand in a queue or are in those hands, each
-- request of the store has ended, or a worker is busy with it, or it stands in the queue of a worker. A
-- cancel and a turn may read a request in one step and mark it in a later one; a creation and its enqueue
-- are one step.
pub nothing_is_lost :
    {p q : Process} (rid : String) (r : Request)
    → IsTurning p
    → IsAwaited p
    → Steps p q
    → Dict.get rid (requests q) ≡ some r
    → (is_terminal r.state ≡ true)
      ⊎ (((d : Entrance) × (busy q d ≡ some rid)) ⊎ ((d : Entrance) × Among rid (queue q d)))
nothing_is_lost {p} {q} rid r t a steps found =
    let (t', a') = Steps-keeps steps t a in
    elim (state_cases r.state) [
      | inl over ↦ inl over
      | inr (inl run) ↦ inr (inl (t'.1 rid r found run))
      | inr (inr waits) ↦ elim (a' rid r found waits) [
        | inl stands ↦ inr (inr stands)
        | inr has ↦ inr (inl has)
      ]
    ]
