-- ===== src/Process/Lifecycle.antt =====
-- When an end is final: no worker has the request in hand, and no cancel is about to mark it.
use mathlib.Core.Path.{subst}
use pj_clusterintent.Prelude.{
  ℕ, String, Bool, true, Option, none, some, List, [], ◌∷◌, ◌++◌, ◌≡◌, ◌≢◌, refl, sym, ap, ◌∙◌, inl,
  inr, All, Bool-cases, Option-cases, str_eq, eq_iff, some_inj,
}
use pj_clusterintent.Prelude.Dict
use pj_clusterintent.Prelude.Dict.{get-put}
use pj_clusterintent.Prelude.Result.{Result-cases}
use pj_clusterintent.Evidence.{RequestState, is_terminal}
use pj_clusterintent.Store.Model.{Request, Store, Fields}
use pj_clusterintent.Store.{get_request, set_fields}
use pj_clusterintent.Worker.{
  crashed, fields_of, System, TurnResult, finish, clear_cancel, update, is_cancel_requested,
  to_state, is_queued,
}
use pj_clusterintent.Server.{Call, do_post, owns}
use pj_clusterintent.Process.{
  Entrance, Activity, Cancel, Process, is_same, request_of, system, put_system, door_of, post,
  take_head, begin_turn, end_turn, read_cancel, write_cancel, cancel_reads, cancel_writes, taken_by,
  started_by, Step, posted, cancel_read, cancel_written, taken, started, ended, Steps, here, next,
}
use pj_clusterintent.Process.Fair.{busy_own, busy_other}
use pj_clusterintent.Process.Handled.{do_post-IsHandledIn, IsHandledIn-IsHandled, requests-update}
use pj_clusterintent.Process.Turns.{IsTaken, taken_by_lem, cancel_writes_lem, update_missing}
use pj_clusterintent.Process.Turning.{requests, busy, begun_stays, terminal_not_queued, is_same_eq}

-- The cancel does not write a state to the request.
abbrev pub Spares : String → Cancel → Type 0
Spares rid c = c.marks ≡ true → c.request_id ≢ rid

-- The request has ended as `r`, no worker has it in hand, and no cancel is about to mark it.
pub record IsLetGo (rid : String) (r : Request) (p : Process) : Type 0 where
  pub stands : Dict.get rid (requests p) ≡ some r
  pub over : is_terminal r.state ≡ true
  pub unheld : (d : Entrance) → busy p d ≢ some rid
  pub spared : All (Spares rid) p.cancels

All-without :
    {A : Type 0} (P : A → Type 0) (x : A) (before behind : List A)
    → All P (before ++ x ∷ behind)
    → P x × All P (before ++ behind)
All-without P x [] behind h = h
All-without P x (b ∷ before) behind (hb, h) =
    let (hx, rest) = All-without P x before behind h in (hx, (hb, rest))

put_elsewhere :
    (rid k : String) (x r : Request) (p : Process) (z : System)
    → z.store.requests ≡ Dict.put k x (requests p)
    → k ≢ rid
    → Dict.get rid (requests p) ≡ some r
    → Dict.get rid z.store.requests ≡ some r
put_elsewhere rid k x r p z put apart found = elim (Bool-cases (str_eq k rid)) [
  | inl same ↦ absurd (apart ((eq_iff k rid).0 same))
  | inr other ↦ rw put (rw (get-put rid k x (requests p), other) found)
]

module _ (now : ℕ) (k : String) (y : System) {rid : String} (apart : k ≢ rid) where
  update_elsewhere :
      (fields : Fields)
      → Dict.get rid (update now k fields y).store.requests ≡ Dict.get rid y.store.requests
  update_elsewhere fields = elim (Option-cases (Dict.get k y.store.requests)) [
    | inl missing ↦ ap (Dict.get rid) (update_missing now k fields y missing)
    | inr (x, found) ↦
        ap (Dict.get rid) (requests-update now k fields y x found)
        ∙ (elim (Bool-cases (str_eq k rid)) [
          | inl same ↦ absurd (apart ((eq_iff k rid).0 same))
          | inr other ↦ rw (get-put rid k (set_fields now fields x) y.store.requests, other) refl
        ])
  ]

  finish_elsewhere :
      (outcome : Option TurnResult)
      → Dict.get rid (finish now k outcome y).store.requests ≡ Dict.get rid y.store.requests
  finish_elsewhere none = update_elsewhere crashed
  finish_elsewhere (some result) = update_elsewhere (fields_of result)

  started_elsewhere :
      Dict.get rid (started_by now k y).0.store.requests ≡ Dict.get rid y.store.requests
  unfolding started_by
  started_elsewhere = elim (Bool-cases (is_cancel_requested k y)) [
    | inl c ↦ rw (started_by, c) (update_elsewhere (to_state RequestState.cancelled))
    | inr c ↦ rw (started_by, c) (update_elsewhere (to_state RequestState.running))
  ]

  started_free : request_of (started_by now k y).1 ≢ some rid
  unfolding started_by
  started_free h = elim (Bool-cases (is_cancel_requested k y)) [
    | inl c ↦ cc (rw (started_by, c) at h)
    | inr c ↦ apart (some_inj (rw (started_by, c) at h))
  ]

module _ (rid : String) (r : Request) where
  -- What an entrance leaves, when the request stands and its worker has not taken it.
  put_system-IsLetGo :
      (d : Entrance) (p : Process) (z : System) (activity : Activity)
      → IsLetGo rid r p
      → Dict.get rid z.store.requests ≡ some r
      → request_of activity ≢ some rid
      → IsLetGo rid r (put_system d z activity p)
  put_system-IsLetGo d p z activity g found free = record {
    stands = found;
    over = g.over;
    unheld = λ e h. elim (Bool-cases (is_same d e)) [
      | inr other ↦ g.unheld e (sym (busy_other d p z activity e other) ∙ h)
      | inl same ↦ free (
          sym (busy_own d p z activity)
          ∙ ap (busy (put_system d z activity p)) (is_same_eq d e same)
          ∙ h)
    ];
    spared = g.spared;
  }

  -- A request that has ended is not marked by a cancel that reads it now.
  cancel_reads_spares :
      (k : String) (c : Call) (y : System) (marks : Bool)
      → Dict.get rid y.store.requests ≡ some r
      → is_terminal r.state ≡ true
      → cancel_reads k c y ≡ some marks
      → k ≢ rid
  unfolding cancel_reads get_request
  cancel_reads_spares k c y marks found over sees same =
      let found' : Dict.get k y.store.requests ≡ some r =
        ap (λ j. Dict.get j y.store.requests) same ∙ found in
      elim (Result-cases c.caller) [
        | inl (e, q) ↦ cc (rw (cancel_reads, q) at sees)
        | inr (i, q) ↦ elim (Bool-cases (owns i r.identity)) [
          | inl o ↦ cc (rw (cancel_reads, q, found', o, over) at sees)
          | inr o ↦ cc (rw (cancel_reads, q, found', o) at sees)
        ]
      ]

  taken_free :
      (k : String) (y : System) (b : System × Activity)
      → IsTaken k y b
      → Dict.get rid y.store.requests ≡ some r
      → is_terminal r.state ≡ true
      → request_of b.1 ≢ some rid
  taken_free k y b (_, _, inr (_, has)) found over h = cc (has, h)
  taken_free k y b (_, _, inl (x, there, queued, has)) found over h =
      let same : x ≡ r =
        some_inj
          (sym there ∙ ap (λ j. Dict.get j y.store.requests) (some_inj (sym has ∙ h)) ∙ found) in
      cc (ap (λ (v : Request). is_queued v.state) same, queued, terminal_not_queued r.state over)

  Step-IsLetGo : {p q : Process} → Step p q → IsLetGo rid r p → IsLetGo rid r q
  unfolding post take_head begin_turn end_turn read_cancel write_cancel
  Step-IsLetGo {p} (posted d path c fresh) g =
      let z = (do_post (door_of d) path c (system d p)).1 in
      let handled = do_post-IsHandledIn (door_of d) path c (system d p) fresh in
      put_system-IsLetGo d p z (p.lanes d).activity g
        (begun_stays (requests p) z.store.requests (IsHandledIn-IsHandled (system d p) z handled)
          rid r g.stands (terminal_not_queued r.state g.over))
        (g.unheld d)
  Step-IsLetGo {p} (cancel_read d k c marks sees) g = record {
    stands = g.stands;
    over = g.over;
    unheld = g.unheld;
    spared = (λ _. cancel_reads_spares k c (system d p) marks g.stands g.over sees, g.spared);
  }
  Step-IsLetGo {p} (cancel_written now c before behind stands) g =
      let rest : Process = record p { cancels = before ++ behind } in
      let z = cancel_writes now c.request_id c.marks (system c.entrance p) in
      let (spares, others) =
        All-without (Spares rid) c before behind (subst (All (Spares rid)) stands g.spared) in
      let rest_go : IsLetGo rid r rest = record {
        stands = g.stands;
        over = g.over;
        unheld = g.unheld;
        spared = others;
      } in
      put_system-IsLetGo c.entrance rest z (p.lanes c.entrance).activity rest_go
        (elim (cancel_writes_lem now c.request_id c.marks (system c.entrance p)).1 [
          | inl same ↦ ap (Dict.get rid) same ∙ g.stands
          | inr (x, put, marking, over) ↦
              put_elsewhere rid c.request_id x r p z put (spares marking) g.stands
        ])
        (g.unheld c.entrance)
  Step-IsLetGo {p} (taken d k rest waits idle) g =
      let y : System = record (system d p) { queue = rest } in
      let b = taken_by k y in
      put_system-IsLetGo d p b.0 b.1 g
        (ap (λ (s : Store). Dict.get rid s.requests) (taken_by_lem k y).0 ∙ g.stands)
        (taken_free k y b (taken_by_lem k y) g.stands g.over)
  Step-IsLetGo {p} (started d now k holds) g =
      let b = started_by now k (system d p) in
      let apart = λ (same : k ≡ rid). g.unheld d (ap request_of holds ∙ ap some same) in
      put_system-IsLetGo d p b.0 b.1 g (started_elsewhere now k (system d p) apart ∙ g.stands)
        (started_free now k (system d p) apart)
  Step-IsLetGo {p} (ended d now k outcome runs fine) g =
      let apart = λ (same : k ≡ rid). g.unheld d (ap request_of runs ∙ ap some same) in
      put_system-IsLetGo d p (clear_cancel k (finish now k outcome (system d p))) Activity.idle g
        (finish_elsewhere now k (system d p) apart outcome ∙ g.stands) (λ h. cc)

  Steps-IsLetGo : {p q : Process} → Steps p q → IsLetGo rid r p → IsLetGo rid r q
  Steps-IsLetGo here g = g
  Steps-IsLetGo (next steps s) g = Step-IsLetGo s (Steps-IsLetGo steps g)

-- In every run of the process, a request that has ended, that no worker has in hand and that no cancel is
-- about to mark stays as it is: its state, its response and all else that the store keeps of it; and no
-- worker takes it in hand, and no cancel marks it, later on. Any other steps, those of cancels and turns
-- that have read and not yet written included, may come in any order.
pub ended_is_final :
    {p q : Process} (rid : String) (r : Request)
    → Dict.get rid (requests p) ≡ some r
    → is_terminal r.state ≡ true
    → ((d : Entrance) → busy p d ≢ some rid)
    → All (Spares rid) p.cancels
    → Steps p q
    → (Dict.get rid (requests q) ≡ some r)
      × ((d : Entrance) → busy q d ≢ some rid)
      × All (Spares rid) q.cancels
ended_is_final rid r found over unheld spared steps =
    let g =
      Steps-IsLetGo rid r steps
        (record { stands = found; over = over; unheld = unheld; spared = spared }) in
    (g.stands, g.unheld, g.spared)
