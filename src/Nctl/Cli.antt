-- ===== src/Nctl/Cli.antt =====
-- The `cagent` command (cli.py): what `build_parser` can return, `compose` and `main`. argparse is
-- Python's: its result for each subcommand is one constructor of `Command`.
use pj_clusterintent.Prelude.{
  ℕ, String, Bool, false, Option, none, some, List, [], ◌∷◌, ◌++◌, str_eq, if◌then◌else◌,
}
use pj_clusterintent.Prelude.Result.{Result, ok, err}
use pj_clusterintent.Nctl.Shlex.{join}
use pj_clusterintent.Nctl.Surface.{validate, Refusal}

-- What each subparser adds: the values of its arguments.
pub data Command : Type 0 where
  status : Bool → Command
  drift relations : Option String → Bool → Command
  actual : Bool → Bool → Command
  ops_list : Option String → Bool → Command
  ops_show : String → Option String → Bool → Command

-- `argparse.Namespace`, an absent attribute as the default that `compose` reads for it
pub record Namespace : Type 0 where
  pub words : List String
  pub operation_id : String
  pub json : Bool
  pub detail : Bool
  pub host : Option String
  pub limit : Option String
  pub after_seq : Option String

abbrev blank : List String → Bool → Namespace
blank words json = record {
  words = words;
  operation_id = "";
  json = json;
  detail = false;
  host = none;
  limit = none;
  after_seq = none;
}

unfoldable pub namespace_of : Command → Namespace
namespace_of (Command.status json) = blank ("status" ∷ []) json
namespace_of (Command.drift host json) = record (blank ("drift" ∷ []) json) { host = host }
namespace_of (Command.relations host json) = record (blank ("relations" ∷ []) json) { host = host }
namespace_of (Command.actual json detail) = record (blank ("actual" ∷ []) json) { detail = detail }
namespace_of (Command.ops_list limit json) = record (blank ("ops" ∷ "list" ∷ []) json) {
  limit = limit;
}
namespace_of (Command.ops_show operation_id after_seq json) =
    record (blank ("ops" ∷ "show" ∷ []) json) { operation_id = operation_id; after_seq = after_seq }

abbrev pub switch_part : String → Bool → List String
switch_part name present = if present then name ∷ [] else []

abbrev pub option_part : String → Option String → List String
option_part name none = []
option_part name (some value) = name ∷ value ∷ []

abbrev pub operation_part : String → List String
operation_part id = if str_eq id "" then [] else id ∷ []

-- The switches that are set, then the options that are given.
abbrev pub flag_parts : (json detail : Bool) (host limit after_seq : Option String) → List String
flag_parts json detail host limit after_seq =
    switch_part "--json" json
    ++ (switch_part "--detail" detail
        ++ (option_part "--host" host
            ++ (option_part "--limit" limit ++ option_part "--after-seq" after_seq)))

unfoldable pub compose : Namespace → List String
compose args =
    args.words
    ++ (operation_part args.operation_id
        ++ flag_parts args.json args.detail args.host args.limit args.after_seq)

-- How the child `nctl` process ends, as `subprocess.run` reports it.
pub data Proc : Type 0 where
  exited : ℕ → Proc
  timed_out os_error : Proc

abbrev pub exit_code : Proc → ℕ
exit_code (Proc.exited code) = code
exit_code _ = 1

-- `main`: the exit status, with the child process `run_nctl` as a parameter
unfoldable pub main : (List String → Proc) → Command → ℕ
unfolding compose namespace_of validate
main run_nctl command = elim (validate (join (compose (namespace_of command)))) [
  | err refusal ↦ 2
  | ok parts ↦ exit_code (run_nctl parts)
]

-- `nctl_readonly`: the agent's tool, a refusal or what the child process gave
unfoldable pub nctl_readonly : (List String → Proc) → String → Result Refusal Proc
unfolding validate
nctl_readonly run_nctl args = elim (validate args) [
  | err refusal ↦ err refusal
  | ok parts ↦ ok (run_nctl parts)
]
