-- ===== src/Topics.antt =====
-- cagent/src/cagent_api/role_run.py and topics_serve.py: one run of a role, and what one serving of a topic
-- hands off and posts. The harness, Zulip and agag's records of the conversation are arguments.
pub mod Laws
pub mod Serving
pub mod ServingLaws
use Prim.Native.String
use pj_clusterintent.Prelude.{
  ℕ, String, Bool, true, false, ◌==◌, ◌&&◌, ◌||◌, Option, none, some, List, [], ◌∷◌, ◌++◌, any,
  if◌then◌else◌, str_eq,
}
use pj_clusterintent.Prelude.Dashes.{first_chars}
use pj_clusterintent.Prelude.Dict.{Dict, put}
use pj_clusterintent.Prelude.Lines.{strip, join_with}
use pj_clusterintent.Prelude.Result.{Result, ok, err, ◌>>=◌}
use pj_clusterintent.Incident.{joined}

-- `ROLE_ALLOWED_TOOLS.get(role)`
abbrev pub role_allowed_tools : String → Option String
role_allowed_tools role =
    if str_eq role "front"
    then some "Read,Write,Edit,Glob,Grep,Bash(agrefs:*)"
    else if str_eq role "operator" || str_eq role "argue"
    then some "Read,Glob,Grep,Bash(cagent:*),Bash(agrefs:*)"
    else none

abbrev readonly_roles : List String
readonly_roles = []

abbrev agcode_args : String → List String
agcode_args role = if any (str_eq role) readonly_roles then "--tools" ∷ "read-only" ∷ [] else []

-- The directories that exist, in the order in which PATH has them.
abbrev existing : (is_dir : String → Bool) → List String → List String
existing is_dir [] = []
existing is_dir (d ∷ ds) = let rest = existing is_dir ds in if is_dir d then d ∷ rest else rest

abbrev with_path : List String → (path : String) → Dict String → Dict String
with_path [] path environment = environment
with_path (e ∷ es) path environment = put "PATH" (join_with ":" ((e ∷ es) ++ path ∷ [])) environment

-- `path` is the environment's PATH, "" without one.
unfoldable pub tool_environment :
    (is_dir : String → Bool) → (scripts_dir bin_dir refs_home path : String) → Dict String
tool_environment is_dir scripts_dir bin_dir refs_home path =
    with_path (existing is_dir (scripts_dir ∷ bin_dir ∷ [])) path (("AGREFS_HOME", refs_home) ∷ [])

-- What `run_harness` is called with, as far as the role decides it.
pub record Invocation : Type 0 where
  pub allowed_tools : Option String
  pub extra_args : Option (List String)
  pub environment : Dict String

abbrev merged : Dict String → Dict String → Dict String
merged base [] = base
merged base ((k, v) ∷ more) = merged (put k v base) more

-- `resolve_cagent_role` and the call of `run_role`, for the resolved agent's harness and environment.
unfoldable pub invocation :
    (harness : String) → (environment tools : Dict String) → (role : String) → Invocation
invocation harness environment tools role = record {
  allowed_tools = role_allowed_tools role;
  extra_args = if str_eq harness "agcode" then some (agcode_args role) else none;
  environment = merged environment tools;
}

pub data TopicError : Type 0 where
  listener_error record_error zulip_error : String → TopicError
  other_error : String → TopicError

-- `_run`, on the output and the exit code of `run_role`; `code_text` is how a code is printed.
unfoldable pub run :
    (role : String) → (output : String) → (code_text : String) → Result TopicError String
unfolding strip first_chars
run role output code_text =
    if str_eq code_text "0"
    then ok (strip output)
    else err (
        TopicError.listener_error
          (joined (role ∷ " run exited " ∷ code_text ∷ ": " ∷ first_chars 500 (strip output) ∷ [])))

-- The section of the change, if its file is there: the two errors that are caught become one.
abbrev pub change_section : Result TopicError String → Result TopicError String
change_section (ok section) = ok section
change_section (err (TopicError.record_error e)) =
    ok (String.◌++◌ "the change could not be recorded: " e)
change_section (err (TopicError.zulip_error e)) =
    ok (String.◌++◌ "the change could not be recorded: " e)
change_section (err (TopicError.listener_error e)) = err (TopicError.listener_error e)
change_section (err (TopicError.other_error e)) = err (TopicError.other_error e)

abbrev pub section_of :
    (register : String → Result TopicError String) → Option String → Result TopicError (List String)
section_of register none = ok []
section_of register (some change) = do section ← change_section (register change); ok (section ∷ [])

abbrev pub operator_section :
    (operator : String → Result TopicError String) → Option String → Result TopicError (List String)
operator_section operator none = ok []
operator_section operator (some required) = do section ← operator required; ok (section ∷ [])

-- The two files that the front may leave, with their texts; `operator` is the operator's run on its file.
unfoldable pub handle_handoffs :
    (register operator : String → Result TopicError String)
    → (change required : Option String) → Result TopicError (List String)
handle_handoffs register operator change required = do
  changes ← section_of register change
  answers ← operator_section operator required
  ok (changes ++ answers)

-- agag's `PostMeta`, and its two words for what a post is.
pub record PostMeta : Type 0 where
  pub intent : Option String
  pub to : Option ℕ
  pub ask : Option String
  pub re : Option String
  pub seen : Option ℕ

pub record Intents : Type 0 where
  pub report : String
  pub response_request : String

pub record ReplySplit : Type 0 where
  pub is_ok : Bool
  pub meta : Option PostMeta

abbrev pub plain_meta : PostMeta
plain_meta = record { intent = none; to = none; ask = none; re = none; seen = none }

abbrev pub is_word : String → Option String → Bool
is_word word none = false
is_word word (some s) = str_eq s word

abbrev pub is_unset : Option ℕ → Bool
is_unset none = true
is_unset (some n) = false

abbrev pub unclassified : Option String → Option PostMeta
unclassified none = none
unclassified (some re) = if str_eq re "" then none else some (record plain_meta { re = some re })

abbrev boundary : ℕ → Option ℕ
boundary processed_up_to = if processed_up_to == 0 then none else some processed_up_to

-- A request without an addressee: to the requester, if there is one with an id.
abbrev pub addressed :
    (requester : Option (Option ℕ)) → (processed_up_to : ℕ) → PostMeta → Option PostMeta
addressed (some (some id)) processed_up_to meta =
    some (record meta { to = some id; seen = boundary processed_up_to })
addressed _ processed_up_to meta = unclassified meta.re

-- `_meaning`: `requester` is what agag's `requester_of` finds, with its sender's id.
unfoldable pub meaning :
    Intents → (requester : Option (Option ℕ)) → (processed_up_to : ℕ) → ReplySplit → Option PostMeta
meaning intents requester processed_up_to split =
    if split.is_ok
    then (elim split.meta [
      | none ↦ none
      | some meta ↦
          if is_word intents.response_request meta.intent && is_unset meta.to
          then addressed requester processed_up_to meta
          else some meta
    ])
    else some (record plain_meta { intent = some intents.report })
