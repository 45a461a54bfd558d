-- ===== src/Process/Opening.antt =====
-- The process as main.py opens it: the store that the scan gives, and three workers that wait.
use pj_clusterintent.Prelude.{
  ℕ, String, true, Option, none, some, List, ◌≡◌, sym, ap, ◌∙◌, some_inj,
}
use mathlib.Core.Path.{subst}
use pj_clusterintent.Prelude.Dict
use pj_clusterintent.Evidence.{Evidence, is_terminal}
use pj_clusterintent.Store.Model.{Request, Store}
use pj_clusterintent.Store.Scan.{scan_and_load}
use pj_clusterintent.Store.Rescan.{map_settle}
use pj_clusterintent.Store.Recovery.{settle-is_terminal}
use pj_clusterintent.Store.Runs.{Run, restart_recovers}
use pj_clusterintent.Process.{opened}
use pj_clusterintent.Process.Turning.{
  IsTurning, IsAwaited, terminal_not_running, terminal_not_queued,
}

module _ (s : Store)
    (over : (rid : String) (r : Request)
      → Dict.get rid s.requests ≡ some r
      → is_terminal r.state ≡ true) where
  pub opened-IsTurning : IsTurning (opened s)
  opened-IsTurning =
      (λ d rid h. cc, λ rid r found run. cc (terminal_not_running r.state (over rid r found), run))

  pub opened-IsAwaited : IsAwaited (opened s)
  opened-IsAwaited rid r found queued = cc (terminal_not_queued r.state (over rid r found), queued)

settled_ended :
    (o : Option Request) (r : Request) → map_settle o ≡ some r → is_terminal r.state ≡ true
settled_ended none r h = cc
settled_ended (some x) r h =
    subst (λ z. is_terminal z.state ≡ true) (some_inj h) (settle-is_terminal x)

-- A process that starts on the evidence of an earlier run, once the scan has given its store, satisfies
-- both invariants of the workers with which it opens: its running requests are in the hands of workers,
-- none of which is busy, and its queued ones stand in a queue. The earlier run started on an empty evidence
-- directory and ended between two calls of the store.
pub restart_opens_idle :
    (now : ℕ) {s : Store} (disk : Evidence) (s' : Store) (newly : List String)
    → Run s
    → s.evidence ≡ some disk
    → scan_and_load now disk ≡ some (s', newly)
    → IsTurning (opened s') × IsAwaited (opened s')
restart_opens_idle now {s} disk s' newly run attached scanned =
    let (t, found, loaded, gets, reported) = restart_recovers now disk run attached in
    let same : t ≡ s' = ap (λ (x : Store × List String). x.0) (some_inj (sym loaded ∙ scanned)) in
    let over = λ (rid : String) (r : Request) (h : Dict.get rid t.requests ≡ some r).
      settled_ended (Dict.get rid s.requests) r (sym (gets rid) ∙ h) in
    subst (λ x. IsTurning (opened x) × IsAwaited (opened x)) same
      (opened-IsTurning t over, opened-IsAwaited t over)
