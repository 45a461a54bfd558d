-- ===== src/Process/Turning.antt =====
-- What the workers have in hand, and what waits for them.
use pj_clusterintent.Prelude.{
  String, true, false, Option, some, List, ◌≡◌, refl, sym, ◌⊎◌, inl, inr, arith, eq_iff, Among,
}
use pj_clusterintent.Prelude.Dict
use pj_clusterintent.Prelude.Dict.{Dict, get-put}
use pj_clusterintent.Evidence.{RequestState, is_terminal}
use pj_clusterintent.Store.Model.{Request}
use pj_clusterintent.Worker.{is_queued}
use pj_clusterintent.Process.{Entrance, is_same, Process, request_of}
use pj_clusterintent.Process.Handled.{IsHandled, is_running}

abbrev pub requests : Process → Dict Request
requests p = p.store.requests

-- The request that the worker of an entrance has in hand.
abbrev pub busy : Process → Entrance → Option String
busy p d = request_of (p.lanes d).activity

abbrev pub queue : Process → Entrance → List String
queue p d = (p.lanes d).queue

-- What a worker has in hand is in the store, and what runs is in the hand of a worker.
abbrev pub IsTurning : Process → Type 0
IsTurning p =
    ((d : Entrance) (rid : String)
      → busy p d ≡ some rid
      → (r : Request) × (Dict.get rid (requests p) ≡ some r))
    × ((rid : String) (r : Request)
        → Dict.get rid (requests p) ≡ some r
        → is_running r.state ≡ true
        → (d : Entrance) × (busy p d ≡ some rid))

-- Every request that waits stands in the queue of a worker, or a worker has just read it.
abbrev pub IsAwaited : Process → Type 0
IsAwaited p =
    (rid : String) (r : Request)
    → Dict.get rid (requests p) ≡ some r
    → is_queued r.state ≡ true
    → ((d : Entrance) × Among rid (queue p d)) ⊎ ((d : Entrance) × (busy p d ≡ some rid))

pub is_same_refl : (d : Entrance) → is_same d d ≡ true
is_same_refl Entrance.node = refl
is_same_refl Entrance.human = refl
is_same_refl Entrance.window = refl

pub running_not_queued : (s : RequestState) → is_running s ≡ true → is_queued s ≡ false
running_not_queued s h = ground arith

pub terminal_not_queued : (s : RequestState) → is_terminal s ≡ true → is_queued s ≡ false
terminal_not_queued s h = ground arith

pub terminal_not_running : (s : RequestState) → is_terminal s ≡ true → is_running s ≡ false
terminal_not_running s h = ground arith

module _ (before after : Dict Request) (handled : IsHandled before after) where
  -- A request that a worker has begun, or that has ended, stays as it is.
  pub begun_stays :
      (rid : String) (r : Request)
      → Dict.get rid before ≡ some r
      → is_queued r.state ≡ false
      → Dict.get rid after ≡ some r
  begun_stays rid r found n = elim handled [
    | inl same ↦ rw same found
    | inr (j, x, put, unbegun, quiet) ↦
        rw put (ground (arith, get-put rid j x before, eq_iff j rid, found))
  ]

  -- No request starts to run.
  pub running_before :
      (rid : String) (r : Request)
      → Dict.get rid after ≡ some r
      → is_running r.state ≡ true
      → Dict.get rid before ≡ some r
  running_before rid r found n = elim handled [
    | inl same ↦ rw (sym same) found
    | inr (j, x, put, unbegun, quiet) ↦
        let found' : Dict.get rid (Dict.put j x before) ≡ some r = rw (sym put) found in
        ground (arith, get-put rid j x before, found')
  ]

pub is_same_eq : (d e : Entrance) → is_same d e ≡ true → d ≡ e
is_same_eq Entrance.node Entrance.node h = refl
is_same_eq Entrance.human Entrance.human h = refl
is_same_eq Entrance.window Entrance.window h = refl
is_same_eq Entrance.node Entrance.human h = cc
is_same_eq Entrance.node Entrance.window h = cc
is_same_eq Entrance.human Entrance.node h = cc
is_same_eq Entrance.human Entrance.window h = cc
is_same_eq Entrance.window Entrance.node h = cc
is_same_eq Entrance.window Entrance.human h = cc
