-- ===== src/Nctl.antt =====
-- cagent/src/cagent_api/readonly_nctl.py and cli.py: the read-only `nctl` surface, and the `cagent`
-- command line that is handed to it.
pub mod Shlex
pub mod Surface
pub mod Cli
pub mod RoundTrip
pub mod Accounting
pub mod CliLaws
