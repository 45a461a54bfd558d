-- ===== src/Runner/Building.antt =====
-- AgentRunner and build_runner of cagent/src/cagent_api/agent_runner.py: what a door's runner is made of and what it
-- hands to its backend. The configuration files are read by agag.agent_config, which is an argument.
use Prim.Native.String
use pj_clusterintent.Prelude.{ℕ, String, Bool, Option, none, some, List, [], ◌∷◌, if◌then◌else◌}
use pj_clusterintent.Prelude.Result.{Result, ok, ◌>>=◌}
use pj_clusterintent.Incident.{joined}
use pj_clusterintent.Runner.{Agent, Tool, entitled, model_max_tokens}

pub record AgentRunner : Type 0 where
  pub agent : Agent
  pub working_dir : String
  pub instructions_path : String
  pub tools : List Tool
  pub claude_allowed_tools : List String
  pub turn_timeout : ℕ

-- The overlay is read if it exists. `Config` is what agag makes of the files.
unfoldable pub resolve :
    {Config : Type 0}
    → (load_config : String → Option String → Result String Config)
    → (resolve_role : Config → String → Result String Agent) → (exists : String → Bool)
    → (role config_path overlay_path : String) → Result String Agent
resolve load_config resolve_role exists role config_path overlay_path = do
  config ← load_config config_path (if exists overlay_path then some overlay_path else none)
  resolve_role config role

unfoldable pub build_runner :
    (resolved : String → Result String Agent)
    → (role working_dir instructions_path : String) → (turn_timeout : ℕ) → Result String AgentRunner
unfolding entitled
build_runner resolved role working_dir instructions_path turn_timeout = do
  agent ← resolved role
  ok (record {
    agent = agent;
    working_dir = working_dir;
    instructions_path = instructions_path;
    tools = (entitled role).0;
    claude_allowed_tools = (entitled role).1;
    turn_timeout = turn_timeout;
  })

-- `hex` is `uuid.uuid4().hex`.
abbrev pub new_session_id : (hex : String) → String
new_session_id hex = String.◌++◌ "ses_" hex

-- The text of the instructions as it is on disk at the time; a file that cannot be read is no text.
abbrev pub instructions : (file : Option String) → String
instructions none = ""
instructions (some text) = text

abbrev pub runaway_turn_budget : ℕ
runaway_turn_budget = 40

-- What `agcode.run` is called with, as far as the runner decides it.
pub record AgcodeCall : Type 0 where
  pub task : String
  pub working_dir : String
  pub max_turns : ℕ
  pub deadline_s : ℕ
  pub max_tokens : ℕ
  pub tools : List Tool
  pub system_suffix : String

-- `none` is the ValueError of the options.
unfoldable pub agcode_call :
    (default : ℕ) → AgentRunner → (file : Option String) → (task : String) → Option AgcodeCall
unfolding model_max_tokens
agcode_call default runner file task = elim (model_max_tokens default runner.agent.max_tokens) [
  | none ↦ none
  | some max_tokens ↦ some (record {
    task = task;
    working_dir = runner.working_dir;
    max_turns = runaway_turn_budget;
    deadline_s = runner.turn_timeout;
    max_tokens = max_tokens;
    tools = runner.tools;
    system_suffix = instructions file;
  })
]

pub record HarnessCall : Type 0 where
  pub prompt : String
  pub cwd : String
  pub timeout : ℕ
  pub allowed_tools : List String

unfoldable pub harness_call : AgentRunner → (file : Option String) → (task : String) → HarnessCall
harness_call runner file task = record {
  prompt = joined (instructions file ∷ "\n\n=== THE REQUEST ===\n" ∷ task ∷ []);
  cwd = runner.working_dir;
  timeout = runner.turn_timeout;
  allowed_tools = runner.claude_allowed_tools;
}
