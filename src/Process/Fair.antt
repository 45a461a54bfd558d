-- ===== src/Process/Fair.antt =====
-- What a step of an entrance has to keep so that no request is lost.
use pj_clusterintent.Prelude.{
  String, true, false, some, ◌≡◌, sym, ap, ◌∙◌, ◌⊎◌, inl, inr, arith, Bool-cases, Among,
}
use mathlib.Core.Path.{subst}
use pj_clusterintent.Prelude.Dict
use pj_clusterintent.Prelude.Dict.{Dict}
use pj_clusterintent.Evidence.{is_terminal}
use pj_clusterintent.Store.Model.{Request}
use pj_clusterintent.Worker.{System, is_queued}
use pj_clusterintent.Process.{Entrance, Activity, is_same, Process, put_system, request_of}
use pj_clusterintent.Process.Handled.{is_running}
use pj_clusterintent.Process.Turns.{IsUnqueued}
use pj_clusterintent.Process.Turning.{
  IsTurning, IsAwaited, requests, busy, queue, is_same_eq, is_same_refl, terminal_not_queued,
  terminal_not_running,
}

abbrev pub IsOver : String → Dict Request → Type 0
IsOver rid d = (r : Request) → Dict.get rid d ≡ some r → is_terminal r.state ≡ true

-- What an entrance may do to the process: `z` is what it leaves, and what its worker is at.
pub record IsFair (d : Entrance) (p : Process) (z : System) (activity : Activity) : Type 0 where
  pub lasts :
      (rid : String) (r : Request)
      → Dict.get rid (requests p) ≡ some r
      → (x : Request) × (Dict.get rid z.store.requests ≡ some x)
  pub runs :
      (rid : String) (r : Request)
      → Dict.get rid z.store.requests ≡ some r
      → is_running r.state ≡ true
      → (Dict.get rid (requests p) ≡ some r) ⊎ (request_of activity ≡ some rid)
  pub waits :
      (rid : String) (r : Request)
      → Dict.get rid z.store.requests ≡ some r
      → is_queued r.state ≡ true
      → (Dict.get rid (requests p) ≡ some r) ⊎ Among rid z.queue
  pub frees :
      (rid : String)
      → busy p d ≡ some rid
      → (request_of activity ≡ some rid) ⊎ IsOver rid z.store.requests
  pub takes :
      (rid : String)
      → Among rid (queue p d)
      → Among rid z.queue ⊎ ((request_of activity ≡ some rid) ⊎ IsUnqueued rid z.store.requests)
  pub known :
      (rid : String)
      → request_of activity ≡ some rid
      → (x : Request) × (Dict.get rid (requests p) ≡ some x)

module _ (d : Entrance) (p : Process) (z : System) (activity : Activity) where
  pub busy_own : busy (put_system d z activity p) d ≡ request_of activity
  busy_own = ground (arith, is_same_refl d)

  pub busy_other :
      (e : Entrance) → is_same d e ≡ false → busy (put_system d z activity p) e ≡ busy p e
  busy_other e other = ground arith

  queue_own : queue (put_system d z activity p) d ≡ z.queue
  queue_own = ground (arith, is_same_refl d)

  queue_other :
      (e : Entrance) → is_same d e ≡ false → queue (put_system d z activity p) e ≡ queue p e
  queue_other e other = ground arith

  module _ (fair : IsFair d p z activity) where
    -- A worker that has the request in hand has it still, or the request has ended.
    hand_on :
        (e : Entrance) (rid : String)
        → busy p e ≡ some rid
        → ((g : Entrance) × (busy (put_system d z activity p) g ≡ some rid))
          ⊎ IsOver rid z.store.requests
    hand_on e rid h = elim (Bool-cases (is_same d e)) [
      | inr other ↦ inl (e, busy_other e other ∙ h)
      | inl same ↦ elim (fair.frees rid (ap (busy p) (is_same_eq d e same) ∙ h)) [
        | inl has ↦ inl (d, busy_own ∙ has)
        | inr over ↦ inr over
      ]
    ]

    pub fair-IsTurning : IsTurning p → IsTurning (put_system d z activity p)
    fair-IsTurning (known, held) = (
      λ e rid h. elim (Bool-cases (is_same d e)) [
        | inr other ↦
            let (r, found) = known e rid (sym (busy_other e other) ∙ h) in fair.lasts rid r found
        | inl same ↦
            let mine : request_of activity ≡ some rid =
              sym busy_own ∙ ap (busy (put_system d z activity p)) (is_same_eq d e same) ∙ h in
            let (r, found) = fair.known rid mine in fair.lasts rid r found
      ],
      λ rid r found run. elim (fair.runs rid r found run) [
        | inr mine ↦ (d, busy_own ∙ mine)
        | inl before ↦
            let (e, h) = held rid r before run in
            elim (hand_on e rid h) [
              | inl on ↦ on
              | inr over ↦ cc (terminal_not_running r.state (over r found), run)
            ]
      ],
    )

    pub fair-IsAwaited : IsAwaited p → IsAwaited (put_system d z activity p)
    fair-IsAwaited awaited rid r found queued = elim (fair.waits rid r found queued) [
      | inr m ↦ inl (d, rw queue_own m)
      | inl before ↦ elim (awaited rid r before queued) [
        | inr (e, h) ↦ elim (hand_on e rid h) [
          | inl on ↦ inr on
          | inr over ↦ cc (terminal_not_queued r.state (over r found), queued)
        ]
        | inl (e, m) ↦ elim (Bool-cases (is_same d e)) [
          | inr other ↦ inl (e, rw (queue_other e other) m)
          | inl same ↦
              elim (fair.takes rid
                (subst (λ x. Among rid (queue p x)) (sym (is_same_eq d e same)) m)) [
                  | inl stands ↦ inl (d, rw queue_own stands)
                  | inr (inl has) ↦ inr (d, busy_own ∙ has)
                  | inr (inr gone) ↦ cc (gone r found, queued)
                ]
        ]
      ]
    ]
