-- ===== src/Runner/Specs.antt =====
-- The specifications of the tools that cagent/src/cagent_api/agent_runner.py and readonly_nctl.py add to those of
-- agag.agcode: the parameters, with their JSON types, and those that are required. Descriptions are not kept.
use pj_clusterintent.Prelude.{String, Option, none, some, List, [], ◌∷◌}
use pj_clusterintent.Runner.{Tool}

pub data JsonType : Type 0 where
  string integer : JsonType
  one_of : (values : List String) → JsonType

pub record Spec : Type 0 where
  pub name : String
  pub properties : List (String × JsonType)
  pub required : List String

abbrev pub guarded_run_spec : Spec
guarded_run_spec = record {
  name = "run";
  properties = ("command", JsonType.string) ∷ [];
  required = "command" ∷ [];
}

abbrev pub record_incident_spec : Spec
record_incident_spec = record {
  name = "record_incident";
  properties =
      ("report", JsonType.string)
      ∷ ("reporter", JsonType.string)
      ∷ ("source", JsonType.string)
      ∷ ("ref", JsonType.string)
      ∷ [];
  required = "report" ∷ [];
}

abbrev pub list_incidents_spec : Spec
list_incidents_spec = record {
  name = "list_incidents";
  properties = ("limit", JsonType.integer) ∷ [];
  required = [];
}

abbrev pub contexts_commands : List String
contexts_commands = "list" ∷ "show" ∷ "search" ∷ "sync" ∷ "changes" ∷ []

abbrev pub contexts_spec : Spec
contexts_spec = record {
  name = "contexts";
  properties =
      ("command", JsonType.one_of contexts_commands)
      ∷ ("ref", JsonType.string)
      ∷ ("terms", JsonType.string)
      ∷ [];
  required = "command" ∷ [];
}

abbrev pub nctl_spec : Spec
nctl_spec = record {
  name = "nctl";
  properties = ("args", JsonType.string) ∷ [];
  required = "args" ∷ [];
}

-- `none` is a tool of agag.agcode.
abbrev pub spec_of : Tool → Option Spec
spec_of Tool.guarded_run = some guarded_run_spec
spec_of Tool.contexts = some contexts_spec
spec_of Tool.nctl = some nctl_spec
spec_of Tool.record_incident = some record_incident_spec
spec_of Tool.list_incidents = some list_incidents_spec
spec_of _ = none
