-- ===== src/Window/Waiting.antt =====
-- The wait of the window's client: it ends, and what it gives.
use pj_clusterintent.Prelude.{
  ℕ, true, false, zero, suc, ◌+◌, ◌*◌, ◌/◌, ◌<◌, ◌≤◌, ltb, some, is_some, ◌≡◌, refl, sym, ◌⊎◌, inl,
  inr, arith, some_inj, Bool-cases,
}
use pj_clusterintent.Prelude.Result.{ok, ok_inj, Result-cases}
use pj_clusterintent.Window.{Request, Polls, has_ended, timed_out, wait, wait_from}

-- `time.sleep` sleeps at least as long as it is told: the n-th reading is n intervals after the start.
abbrev pub IsSlept : (start : ℕ) → Polls → Type 0
IsSlept start polls = (n : ℕ) → start + n * 3000 ≤ polls.monotonic n

module _ (start timeout_seconds deadline : ℕ) (polls : Polls) (slept : IsSlept start polls) where
  overdue : (n : ℕ) → deadline < polls.monotonic n → ltb deadline (polls.monotonic n) ≡ true
  overdue n h = ground arith

  wait_from_ends :
      (fuel n : ℕ)
      → deadline < start + (n + fuel) * 3000
      → is_some (wait_from (suc fuel) deadline timeout_seconds polls n) ≡ true
  unfolding wait_from
  wait_from_ends zero n h = elim (Result-cases (polls.call n)) [
    | inl (e, failed) ↦ rw failed refl
    | inr (r, called) ↦ rw called (elim (Bool-cases (has_ended r)) [
      | inl ended ↦ rw ended refl
      | inr going ↦ rw (going, overdue n (omega (arith, slept n))) refl
    ])
  ]
  wait_from_ends (suc fuel) n h = elim (Result-cases (polls.call n)) [
    | inl (e, failed) ↦ rw failed refl
    | inr (r, called) ↦ rw called (elim (Bool-cases (has_ended r)) [
      | inl ended ↦ rw ended refl
      | inr going ↦ rw going (elim (Bool-cases (ltb deadline (polls.monotonic n))) [
        | inl late ↦ rw late refl
        | inr early ↦ rw early (wait_from_ends fuel (suc n) (omega arith))
      ])
    ])
  ]

-- The wait for a request ends, whatever the door answers, after at most a third of the timeout in seconds
-- and two tries: the condition is that a sleep between two tries lasts at least its three seconds.
pub wait_ends :
    (fuel timeout_seconds start : ℕ) (polls : Polls)
    → IsSlept start polls
    → timeout_seconds / 3 + 2 ≤ fuel
    → is_some (wait fuel timeout_seconds start polls) ≡ true
unfolding wait
wait_ends (suc fuel) timeout_seconds start polls slept enough =
    wait_from_ends start timeout_seconds (start + timeout_seconds * 1000) polls slept fuel 0
      (omega arith)
wait_ends zero timeout_seconds start polls slept enough = absurd (omega arith)

-- What a wait that gives a request has seen: the n-th call gave it, and either it has ended, and is given
-- as it is, or it has not and the deadline has passed, and it is given with the error of a timeout.
pub record IsWaited (deadline timeout_seconds : ℕ) (polls : Polls) (request : Request)
    : Type 0 where
  pub tries : ℕ
  pub polled : Request
  pub called : polls.call tries ≡ ok polled
  pub given :
      ((has_ended polled ≡ true) × (request ≡ polled))
      ⊎ ((has_ended polled ≡ false)
          × (deadline < polls.monotonic tries)
          × (request ≡ timed_out timeout_seconds polled))

wait_from-IsWaited :
    (deadline timeout_seconds : ℕ) (polls : Polls) (fuel n : ℕ) (request : Request)
    → wait_from fuel deadline timeout_seconds polls n ≡ some (ok request)
    → IsWaited deadline timeout_seconds polls request
unfolding wait_from
wait_from-IsWaited deadline timeout_seconds polls zero n request h = cc
wait_from-IsWaited deadline timeout_seconds polls (suc fuel) n request h =
    elim (Result-cases (polls.call n)) [
      | inl (e, failed) ↦ cc (rw failed at h)
      | inr (r, called) ↦ elim (Bool-cases (has_ended r)) [
        | inl ended ↦ record {
          tries = n;
          polled = r;
          called = called;
          given = inl (ended, sym (ok_inj (some_inj (rw (called, ended) at h))));
        }
        | inr going ↦ elim (Bool-cases (ltb deadline (polls.monotonic n))) [
          | inl late ↦ record {
            tries = n;
            polled = r;
            called = called;
            given =
                inr (going, ground arith, sym (ok_inj (some_inj (rw (called, going, late) at h))));
          }
          | inr early ↦
              wait_from-IsWaited deadline timeout_seconds polls fuel (suc n) request
                (rw (called, going, early) at h)
        ]
      ]
    ]

pub wait_lem :
    (fuel timeout_seconds start : ℕ) (polls : Polls) (request : Request)
    → wait fuel timeout_seconds start polls ≡ some (ok request)
    → IsWaited (start + timeout_seconds * 1000) timeout_seconds polls request
unfolding wait
wait_lem fuel timeout_seconds start polls request h =
    wait_from-IsWaited (start + timeout_seconds * 1000) timeout_seconds polls fuel 0 request h
