-- ===== src/Argue.antt =====
-- cagent/src/cagent_api/argue.py: a mention in an argue. agag's `participate` and the tests of a topic are
-- arguments, and so is the run of the role; a state `S` is what they write to.
use pj_clusterintent.Prelude.{String, Bool, Option, none, some, ◌∷◌, [], if◌then◌else◌, str_eq}
use pj_clusterintent.Prelude.Dashes.{first_chars}
use pj_clusterintent.Prelude.Dict.{Dict, put}
use pj_clusterintent.Prelude.Lines.{strip}
use pj_clusterintent.Prelude.Result.{Result, ok, err}
use pj_clusterintent.Incident.{joined}

abbrev pub tools_dir : String
tools_dir = "tools"

abbrev pub toolset_nctl : String
toolset_nctl = "toolset_nctl.md"

abbrev pub argue_role : String
argue_role = "argue"

abbrev pub tool_path : String
tool_path = joined (tools_dir ∷ "/" ∷ toolset_nctl ∷ [])

-- The files of the topic workspace, after the read-only toolset was put beside the chatlog, if it is there.
unfoldable pub with_toolset : (source : Option String) → Dict String → Dict String
with_toolset none workspace = workspace
with_toolset (some text) workspace = put tool_path text workspace

-- `run_argue`: `run_role` gives the output and the exit code, as it is printed. The error is a RuntimeError.
unfoldable pub run_argue :
    (run_role : (role prompt : String) → Dict String → String × String)
    → (source : Option String) → (prompt : String) → (workspace : Dict String)
    → Result String String × Dict String
unfolding with_toolset strip first_chars
run_argue run_role source prompt workspace =
    let prepared = with_toolset source workspace in
    let (output, code_text) = run_role argue_role prompt prepared in
    (
      if str_eq code_text "0"
          then ok (strip output)
          else err (
              joined (
                argue_role
                ∷ " run exited "
                ∷ code_text
                ∷ ": "
                ∷ first_chars 500 (strip output)
                ∷ [])),
      prepared,
    )

-- A mention anywhere but in an argue is left alone.
unfoldable pub handle_mention :
    {S : Type 0}
    → (is_argue_topic : (channel topic : String) → Bool)
    → (participate : (channel topic : String) → S → S) → (channel topic : String) → S
    → S
handle_mention is_argue_topic participate channel topic s =
    if is_argue_topic channel topic then participate channel topic s else s
