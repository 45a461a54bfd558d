-- ===== src/Topics/Serving.antt =====
-- serve of cagent/src/cagent_api/topics_serve.py: one serving of a topic, as a result and the effects it had
-- in their order. The runs of the roles, Zulip, and agag's reply and post formats are arguments.
use pj_clusterintent.Prelude.{
  ℕ, String, Bool, true, false, Option, none, some, List, [], ◌∷◌, ◌++◌, str_eq,
}
use pj_clusterintent.Prelude.Result.{Result, ok, err}
use pj_clusterintent.Topics.{
  TopicError, handle_handoffs, PostMeta, plain_meta, Intents, ReplySplit, meaning, run,
}

abbrev pub sweep_ack : String
sweep_ack = "Message received. Please wait for the reply."

abbrev pub is_ack : (content : String) → Bool
is_ack content = str_eq content sweep_ack

-- The two files that a front run may leave in its directory.
pub record FrontFiles : Type 0 where
  pub requested_change : Option String
  pub required_info : Option String

abbrev pub no_files : FrontFiles
no_files = record { requested_change = none; required_info = none }

pub record RoleRun : Type 0 where
  pub output : String
  pub code_text : String
  pub files : FrontFiles

pub record FrontReply : Type 0 where
  pub answer : String
  pub split : ReplySplit
  pub marked : Bool
  pub blocks : ℕ
  pub error : String

-- What agag's `resolve_reply` does with an output: it has the reply, or asks for one more run.
pub data Resolution : Type 0 where
  resolved : FrontReply → Resolution
  repair : (again : String) → (Result TopicError String → Result TopicError FrontReply) → Resolution

pub data Effect : Type 0 where
  wrote_chatlog : (chatlog : String) → Effect
  ran_front : (prompt : String) → Effect
  journaled : (marked : Bool) → (blocks : ℕ) → (failure : String) → Effect
  posted : (content : String) → Effect
  handed_off : FrontFiles → Effect

pub data Step : Type 0 where
  front handoffs : Step

pub record TopicResult : Type 0 where
  pub sections : List String
  pub meta : PostMeta

pub record Served : Type 0 where
  pub result : Result TopicError TopicResult
  pub effects : List Effect
  pub step : Step

-- `post` gives the error that Zulip answers with, none where the post went through; `requester` is what
-- `requester_of` finds.
pub record Context : Type 0 where
  pub chatlog : (drop : String → Bool) → String
  pub prompt : String
  pub run_role : (prompt : String) → FrontFiles → RoleRun
  pub resolve_reply : String → Resolution
  pub has_journal : Bool
  pub intents : Intents
  pub requester : Option (Option ℕ)
  pub processed_up_to : ℕ
  pub compose : String → Option PostMeta → String
  pub post : String → Option TopicError
  pub register_change : String → Result TopicError String
  pub run_operator : String → Result TopicError String

abbrev pub run_front :
    Context → (prompt : String) → FrontFiles → Result TopicError String × FrontFiles
run_front context prompt files =
    let done = context.run_role prompt files in (run "front" done.output done.code_text, done.files)

abbrev pub reported : PostMeta → Result TopicError (List String) → Result TopicError TopicResult
reported meta (ok sections) = ok (record { sections = sections; meta = meta })
reported meta (err e) = err e

abbrev pub report_meta : Intents → PostMeta
report_meta intents = record plain_meta { intent = some intents.report }

abbrev pub hand_off : Context → FrontFiles → List Effect → Served
hand_off context files before = record {
  result = reported (report_meta context.intents) (
      handle_handoffs context.register_change context.run_operator files.requested_change
        files.required_info);
  effects = before ++ handed_off files ∷ [];
  step = Step.handoffs;
}

abbrev pub raise_in_front : TopicError → List Effect → Served
raise_in_front e effects = record { result = err e; effects = effects; step = Step.front }

abbrev pub journal_reply : Bool → FrontReply → List Effect
journal_reply true reply = journaled reply.marked reply.blocks reply.error ∷ []
journal_reply false reply = []

abbrev pub after_post :
    Context → FrontFiles → (content : String) → Option TopicError → List Effect → Served
after_post context files content (some e) before = raise_in_front e before
after_post context files content none before =
    hand_off context files (before ++ posted content ∷ [])

abbrev pub content_of : Context → FrontReply → String
content_of context reply =
    context.compose reply.answer
      (meaning context.intents context.requester context.processed_up_to reply.split)

abbrev pub answer_with : Context → FrontReply → FrontFiles → List Effect → Served
answer_with context reply files before =
    let content = content_of context reply in
    after_post context files content (context.post content)
      (before ++ journal_reply context.has_journal reply)

abbrev pub answer_or_raise :
    Context → Result TopicError FrontReply → FrontFiles → List Effect → Served
answer_or_raise context (err e) files before = raise_in_front e before
answer_or_raise context (ok reply) files before = answer_with context reply files before

abbrev pub resolve : Context → Resolution → FrontFiles → List Effect → Served
resolve context (resolved reply) files before = answer_with context reply files before
resolve context (repair again finish) files before =
    let (second, left) = run_front context again files in
    answer_or_raise context (finish second) left (before ++ ran_front again ∷ [])

abbrev pub after_front : Context → Result TopicError String → FrontFiles → List Effect → Served
after_front context (err e) files before = raise_in_front e before
after_front context (ok output) files before =
    resolve context (context.resolve_reply output) files before

unfoldable pub serve : Context → Served
serve context =
    let (output, files) = run_front context context.prompt no_files in
    after_front context output files
      (wrote_chatlog (context.chatlog is_ack) ∷ ran_front context.prompt ∷ [])
