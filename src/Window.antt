-- ===== src/Window.antt =====
-- cagent/src/cagent_api/zulip_window.py: the chat window's texts, and the client of the window's HTTP door. A
-- clock reads milliseconds; what the HTTP calls give is an argument, an exception being its text.
pub mod Reply
pub mod Listener
pub mod Waiting
pub mod Answering
use Prim.Native.String
use pj_clusterintent.Prelude.{
  ℕ, String, Bool, true, false, zero, suc, ◌+◌, ◌*◌, ◌==◌, ◌&&◌, ltb, not, Option, none, some, List,
  [], ◌∷◌, any, if◌then◌else◌, str_eq, is_some, ◌≡◌, refl,
}
use pj_clusterintent.Prelude.Digits.{in_base}
use pj_clusterintent.Prelude.Lines.{strip, join_with, is_blank}
use pj_clusterintent.Prelude.Result.{Result, ok, err}
use pj_clusterintent.Prelude.Text.{strip_prefix}
use pj_clusterintent.Incident.{joined}

abbrev pub ack_prefix : String
ack_prefix = "Got it — thinking."

unfoldable pub ack_text : (request_id : String) → String
ack_text request_id = joined (ack_prefix ∷ " (request `" ∷ request_id ∷ "`)" ∷ [])

-- A key that is missing or null is `none`.
pub record DirectMessage : Type 0 where
  pub id : ℕ
  pub sender_id : ℕ
  pub sender_full_name : Option String
  pub content : String

-- `text or fallback`, of a value that may be None.
abbrev or_else : Option String → String → String
or_else none fallback = fallback
or_else (some text) fallback = if str_eq text "" then fallback else text

abbrev pub is_our_ack : (self_id : ℕ) → DirectMessage → Bool
is_our_ack self_id m = m.sender_id == self_id && is_some (strip_prefix ack_prefix (strip m.content))

unfoldable pub transcript_line : (self_id : ℕ) → DirectMessage → String
transcript_line self_id m =
    let speaker = or_else m.sender_full_name (String.◌++◌ "user" (in_base 10 m.sender_id)) in
    joined (
      "["
      ∷ speaker
      ∷ (if m.sender_id == self_id then " (you)" else "")
      ∷ "] "
      ∷ strip m.content
      ∷ [])

unfoldable pub transcript_lines : (self_id : ℕ) → List DirectMessage → List String
transcript_lines self_id [] = []
transcript_lines self_id (m ∷ ms) =
    let rest = transcript_lines self_id ms in
    if is_our_ack self_id m then rest else transcript_line self_id m ∷ rest

unfoldable pub format_transcript : List DirectMessage → (self_id : ℕ) → String
format_transcript messages self_id = join_with "\n" (transcript_lines self_id messages)

unfoldable pub compose_text : (transcript reporter ref : String) → String
compose_text transcript reporter ref = joined (
    "This message arrived as a Zulip direct message. You are talking with someone in\n"
    ∷ "a chat window, so answer like a chat reply: short, plain, no preamble.\n\n"
    ∷ "If this reports a defect or a wrong answer, record it with\n"
    ∷ "`uv run cagent/window/incident.py` using exactly these values:\n" ∷ "`--reporter \""
    ∷ reporter ∷ "\" --source zulip-dm --ref \"" ∷ ref
    ∷ "\"`.\n\nRecent conversation, oldest first, exactly as the participants see it on\n"
    ∷ "screen. Lines marked \"(you)\" are your own earlier replies:\n\n" ∷ transcript
    ∷ "\n\nThe last line is what to answer now; the earlier lines are context.\n" ∷ [])

unfoldable pub reporter_label : DirectMessage → String
reporter_label m =
    strip (joined ("zulip:" ∷ in_base 10 m.sender_id ∷ " " ∷ or_else m.sender_full_name "" ∷ []))

-- What `/requests/<id>` answers, as far as it is read; `error` is its message.
pub record Request : Type 0 where
  pub state : Option String
  pub response : Option String
  pub error : Option (Option String)

abbrev pub terminal_states : List String
terminal_states = "completed" ∷ "failed" ∷ "cancelled" ∷ "interrupted" ∷ []

abbrev pub has_ended : Request → Bool
has_ended r = elim r.state [ none ↦ false | some state ↦ any (str_eq state) terminal_states ]

abbrev is_completed : Option String → Bool
is_completed none = false
is_completed (some state) = str_eq state "completed"

abbrev error_message : Option (Option String) → Option String
error_message none = none
error_message (some message) = message

unfoldable pub answer_text : Request → String
answer_text r =
    let response = strip (or_else r.response "") in
    if is_completed r.state && not (str_eq response "")
    then response
    else joined (
        "That turn did not produce an answer ("
        ∷ or_else (error_message r.error) (or_else r.state "no answer")
        ∷ ")."
        ∷ [])

abbrev state_shown : Option String → String
state_shown none = "None"
state_shown (some state) = state

unfoldable pub timed_out : (timeout_seconds : ℕ) → Request → Request
timed_out timeout_seconds r = record {
  state = r.state;
  response = r.response;
  error = some (
      some (
        joined
          ("still " ∷ state_shown r.state ∷ " after " ∷ in_base 10 timeout_seconds ∷ "s" ∷ [])));
}

abbrev pub poll_interval_ms : ℕ
poll_interval_ms = 3000

-- What the loop meets: the answer of its n-th call, and its n-th reading of the clock.
pub record Polls : Type 0 where
  pub call : ℕ → Result String Request
  pub monotonic : ℕ → ℕ

abbrev after_call :
    Result String Request
    → (late : Bool) → (timeout_seconds : ℕ) → Option (Result String Request)
    → Option (Result String Request)
after_call (err e) late timeout rest = some (err e)
after_call (ok r) late timeout rest =
    if has_ended r then some (ok r) else if late then some (ok (timed_out timeout r)) else rest

-- `none` is a loop that the fuel did not end.
unfoldable pub wait_from :
    (fuel : ℕ) → (deadline timeout_seconds : ℕ) → Polls → (n : ℕ) → Option (Result String Request)
wait_from zero deadline timeout polls n = none
wait_from (suc fuel) deadline timeout polls n =
    let rest = wait_from fuel deadline timeout polls (suc n) in
    after_call (polls.call n) (ltb deadline (polls.monotonic n)) timeout rest

-- `WindowClient.wait`, begun at `start`.
unfoldable pub wait :
    (fuel : ℕ) → (timeout_seconds start : ℕ) → Polls → Option (Result String Request)
unfolding wait_from
wait fuel timeout_seconds start polls =
    wait_from fuel (start + timeout_seconds * 1000) timeout_seconds polls 0
