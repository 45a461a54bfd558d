-- ===== src/Examples.antt =====
-- Concrete runs: every theorem with a condition is applied where it holds.
mod IncidentRuns
mod TopicsRuns
mod ProcessRuns
mod CaRuns
mod ChangeRuns
mod WindowRuns
mod LedgerRuns
mod StoreRuns
mod AuthRuns
mod NctlRuns
mod ServerRuns
mod RunnerRuns
