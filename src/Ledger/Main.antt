-- ===== src/Ledger/Main.antt =====
-- build_parser and main of cagent/src/cagent_api/ledger_cli.py: the commands that argparse tells apart, and what
-- each leaves of the ledger. `shown` prints a time.
use pj_clusterintent.Prelude.{ℕ, String}
use pj_clusterintent.Ledger.{Ledger}
use pj_clusterintent.Ledger.Console.{
  Printed, cmd_list, cmd_show, cmd_register, cmd_revoke, cmd_reactivate,
}

pub data Arguments : Type 0 where
  list : Arguments
  show revoke reactivate : (serial : String) → Arguments
  register : (uuid serial fingerprint not_after : String) → Arguments

unfoldable pub main : (shown : ℕ → String) (now : ℕ) → Arguments → Ledger → Printed × Ledger
unfolding cmd_list cmd_show cmd_register cmd_revoke cmd_reactivate
main shown now Arguments.list ledger = (cmd_list shown ledger, ledger)
main shown now (Arguments.show serial) ledger = (cmd_show shown serial ledger, ledger)
main shown now (Arguments.register uuid serial fingerprint not_after) ledger =
    cmd_register now uuid serial fingerprint not_after ledger
main shown now (Arguments.revoke serial) ledger = cmd_revoke now serial ledger
main shown now (Arguments.reactivate serial) ledger = cmd_reactivate now serial ledger
