-- ===== src/Runner.antt =====
-- cagent/src/cagent_api/agent_runner.py: one turn through a backend, and the tools of a door. What
-- agag.agcode and agag.harness return is an argument, read as far as the code reads it.
pub mod Contexts
pub mod Building
pub mod Specs
pub mod Destroy
pub mod Spelled
pub mod Squeezed
pub mod Laws
use pj_clusterintent.Prelude.{
  ℕ, String, Bool, true, false, Option, none, some, List, [], ◌∷◌, ◌==◌, if◌then◌else◌, str_eq,
}
use pj_clusterintent.Evidence.{RequestState, ErrorInfo, Backend}
use pj_clusterintent.Worker.{TurnResult}

-- A value of the model options.
pub data OptionValue : Type 0 where
  bool other : OptionValue
  int : ℕ → OptionValue
  negative : OptionValue

-- `none` is the ValueError.
unfoldable pub model_max_tokens : (default : ℕ) → Option OptionValue → Option ℕ
model_max_tokens default none = if default == 0 then none else some default
model_max_tokens default (some (OptionValue.int n)) = if n == 0 then none else some n
model_max_tokens default (some _) = none

pub record Agent : Type 0 where
  pub harness : String
  pub provider : String
  pub model : String
  pub role : String
  pub profile : String
  pub max_tokens : Option OptionValue

-- `AgentRunner.identity`
abbrev pub identity_of : Agent → Backend
identity_of agent = record {
  harness = agent.harness;
  provider = agent.provider;
  model = agent.model;
  role = agent.role;
  profile = agent.profile;
}

pub record AgcodeResult : Type 0 where
  pub output : String
  pub outcome : Option String
  pub failure_kind : Option String
  pub failure : Option String

pub record HarnessResult : Type 0 where
  pub output : String
  pub outcome : Option String
  pub failure : Option String
  pub cost_usd : Option ℕ

abbrev is_text : String → Option String → Bool
is_text word none = false
is_text word (some s) = str_eq s word

abbrev or_run_failed : Option String → String
or_run_failed none = "run failed"
or_run_failed (some s) = s

abbrev agent_error : Option String → Option ErrorInfo
agent_error failure = some (record { code = "agent_error"; message = or_run_failed failure })

abbrev pub of_agcode : Backend → AgcodeResult → TurnResult
of_agcode identity r =
    if is_text "cancelled" r.failure_kind
    then record {
      text = "";
      state = RequestState.cancelled;
      error = none;
      cost_usd = none;
      backend = some identity;
    }
    else if is_text "done" r.outcome
    then record {
      text = r.output;
      state = RequestState.completed;
      error = none;
      cost_usd = none;
      backend = some identity;
    }
    else record {
      text = "";
      state = RequestState.failed;
      error = agent_error r.failure;
      cost_usd = none;
      backend = some identity;
    }

-- `none` is an exception: of the options, or of agcode itself.
unfoldable pub run_agcode :
    (default : ℕ) (agcode : (max_tokens : ℕ) → String → Option AgcodeResult)
    → Agent
    → String
    → Option TurnResult
unfolding model_max_tokens
run_agcode default agcode agent task = elim (model_max_tokens default agent.max_tokens) [
  | none ↦ none
  | some max_tokens ↦ elim (agcode max_tokens task) [
    | none ↦ none
    | some r ↦ some (of_agcode (identity_of agent) r)
  ]
]

abbrev pub of_claude : Backend → HarnessResult → TurnResult
of_claude identity r =
    if is_text "done" r.outcome
    then record {
      text = r.output;
      state = RequestState.completed;
      error = none;
      cost_usd = r.cost_usd;
      backend = some identity;
    }
    else record {
      text = "";
      state = RequestState.failed;
      error = agent_error r.failure;
      cost_usd = r.cost_usd;
      backend = some identity;
    }

unfoldable pub run_claude :
    (harness : String → Option HarnessResult) → Agent → String → Option TurnResult
run_claude harness agent task = elim (harness task) [
  | none ↦ none
  | some r ↦ some (of_claude (identity_of agent) r)
]

unfoldable pub run :
    (default : ℕ) (agcode : (max_tokens : ℕ) → String → Option AgcodeResult)
    (harness : String → Option HarnessResult)
    → Agent
    → String
    → Option TurnResult
unfolding run_agcode run_claude
run default agcode harness agent task =
    if str_eq agent.harness "claude_code"
    then run_claude harness agent task
    else run_agcode default agcode agent task

pub data Tool : Type 0 where
  read write list guarded_run contexts nctl record_incident list_incidents : Tool

abbrev pub authenticated_tools : List Tool
authenticated_tools = Tool.read ∷ Tool.write ∷ Tool.list ∷ Tool.guarded_run ∷ Tool.contexts ∷ []

abbrev pub window_tools : List Tool
window_tools =
    Tool.read ∷ Tool.list ∷ Tool.nctl ∷ Tool.record_incident ∷ Tool.list_incidents ∷ Tool.contexts
    ∷ []

abbrev pub claude_readonly_tools : List String
claude_readonly_tools = "Read" ∷ "Glob" ∷ "Grep" ∷ []

abbrev pub claude_working_tools : List String
claude_working_tools = "Read" ∷ "Write" ∷ "Edit" ∷ "Glob" ∷ "Grep" ∷ "TodoWrite" ∷ "Bash" ∷ []

-- What `build_runner` entitles a role to: its tools, and what claude_code is allowed.
unfoldable pub entitled : String → List Tool × List String
entitled role =
    if str_eq role "front"
    then (window_tools, claude_readonly_tools)
    else (authenticated_tools, claude_working_tools)
