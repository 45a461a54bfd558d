-- ===== src/Startup.antt =====
-- cagent/src/cagent_api/main.py: what has to be there before the three doors open, and what each of them is
-- given. TLS, sockets and threads are not part of it.
pub mod Laws
use pj_clusterintent.Prelude.{
  ℕ, String, Bool, true, false, Option, none, some, List, str_eq, if◌then◌else◌,
}
use pj_clusterintent.Prelude.Lines.{strip}
use pj_clusterintent.Prelude.Result.{Result, ok, err, ◌>>=◌}
use pj_clusterintent.Auth.{
  AuthError, PeerCert, cert_authenticate, token_authenticate, no_authenticate,
}
use pj_clusterintent.Auth.NodeResolver.{ResolverError}
use pj_clusterintent.Evidence.{Evidence}
use pj_clusterintent.Ledger.{Ledger}
use pj_clusterintent.Runner.{Agent}
use pj_clusterintent.Store.Owner.{Identity}
use pj_clusterintent.Store.Model.{Store}
use pj_clusterintent.Store.Scan.{scan_and_load}

pub data Exit : Type 0 where
  no_token_file empty_token_file : Exit
  unusable_configuration : String → Exit
  -- an exception of the scan
  scan_failed : Exit

-- `none` is a token file that does not exist.
unfoldable pub read_human_token : (token_file : Option String) → Result Exit String
unfolding strip
read_human_token none = err Exit.no_token_file
read_human_token (some text) =
    let token = strip text in if str_eq token "" then err Exit.empty_token_file else ok token

-- A door: the role of its runner, and what it opens besides the API. Each has a worker of its own over the
-- one store.
pub record Door : Type 0 where
  pub agent : Agent
  pub serve_ui : Bool
  pub guide : Bool

pub record Service : Type 0 where
  pub store : Store
  pub newly_interrupted : List String
  pub node : Door
  pub human : Door
  pub window : Door
  pub human_token : String

abbrev pub runner_for : (build_runner : String → Result String Agent) → String → Result Exit Agent
runner_for build_runner role = elim (build_runner role) [
  | err e ↦ err (Exit.unusable_configuration e)
  | ok agent ↦ ok agent
]

abbrev pub or_exit : Option (Store × List String) → Result Exit (Store × List String)
or_exit none = err Exit.scan_failed
or_exit (some loaded) = ok loaded

-- From the token to the doors; `build_runner` resolves a role by the agent configuration.
unfoldable pub startup :
    (build_runner : String → Result String Agent)
    → (token_file : Option String) → (now : ℕ) → Evidence
    → Result Exit Service
startup build_runner token_file now evidence = do
  human_token ← read_human_token token_file
  (store, newly_interrupted) ← or_exit (scan_and_load now evidence)
  node ← runner_for build_runner "node"
  human ← runner_for build_runner "human"
  window ← runner_for build_runner "front"
  ok (record {
    store = store;
    newly_interrupted = newly_interrupted;
    node = record { agent = node; serve_ui = false; guide = false };
    human = record { agent = human; serve_ui = true; guide = false };
    window = record { agent = window; serve_ui = false; guide = true };
    human_token = human_token;
  })
