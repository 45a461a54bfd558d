-- ===== src/Window/Reply.antt =====
-- `run_and_reply` and the listener handler of cagent/src/cagent_api/zulip_window.py: what is sent for one direct
-- message. The direct messages that were sent are a list, oldest first.
use Prim.Native.String
use pj_clusterintent.Prelude.{
  ℕ, String, Bool, Option, none, some, List, [], ◌∷◌, ◌++◌, length, if◌then◌else◌,
}
use pj_clusterintent.Prelude.Digits.{in_base}
use pj_clusterintent.Prelude.Result.{Result, ok, err}
use pj_clusterintent.Window.{
  DirectMessage, Request, Polls, ack_text, answer_text, compose_text, format_transcript,
  reporter_label, wait,
}

-- What Zulip and the window's door do during the run of one message. `delivers` says whether the n-th
-- `send_dm` goes through.
pub record Outside : Type 0 where
  pub dm_history : List ℕ → Result String (List DirectMessage)
  pub ask : String → Result String String
  pub delivers : ℕ → Bool
  pub start : ℕ
  pub polls : String → Polls

-- Who it went to, and the text.
abbrev pub Sent : Type 0
Sent = List (List ℕ × String)

-- `send_dm`: the message is there, or the call raised.
abbrev pub send_dm : Outside → List ℕ → String → Sent → Result String Sent
send_dm outside partners text sent =
    if outside.delivers (length sent)
    then ok (sent ++ (partners, text) ∷ [])
    else err "send_dm failed"

-- How a run ends: with an exception or without, and what was sent until then.
pub data Run : Type 0 where
  finished : Sent → Run
  raised : String → Sent → Run

abbrev pub last_send : Outside → List ℕ → String → Sent → Run
last_send outside partners text sent = elim (send_dm outside partners text sent) [
  | err e ↦ Run.raised e sent
  | ok after ↦ Run.finished after
]

abbrev pub reply_to : Outside → List ℕ → Sent → Result String Request → Run
reply_to outside partners sent (err e) = Run.raised e sent
reply_to outside partners sent (ok request) = last_send outside partners (answer_text request) sent

-- From the request on: the acknowledgement, the wait, the answer. `none` is a wait that the fuel did not end.
abbrev pub run_request :
    (fuel timeout_seconds : ℕ) → Outside → List ℕ → (request_id : String) → Option Run
run_request fuel timeout outside partners request_id =
    elim (send_dm outside partners (ack_text request_id) []) [
      | err e ↦ some (Run.raised e [])
      | ok sent ↦ elim (wait fuel timeout outside.start (outside.polls request_id)) [
        | none ↦ none
        | some request ↦ some (reply_to outside partners sent request)
      ]
    ]

unfoldable pub request_text : DirectMessage → (self_id : ℕ) → List DirectMessage → String
request_text message self_id history =
    compose_text (format_transcript history self_id) (reporter_label message)
      (String.◌++◌ "zulip message " (in_base 10 message.id))

unfoldable pub run_and_reply :
    (fuel timeout_seconds : ℕ)
    → Outside
    → (partners : List ℕ) → DirectMessage
    → (self_id : ℕ) → Option Run
run_and_reply fuel timeout outside partners message self_id = elim (outside.dm_history partners) [
  | err e ↦ some (Run.raised e [])
  | ok history ↦ elim (outside.ask (request_text message self_id history)) [
    | err e ↦ some (Run.raised e [])
    | ok request_id ↦ run_request fuel timeout outside partners request_id
  ]
]

abbrev pub failure_text : String → String
failure_text error = String.◌++◌ "Something broke between the chat and the window: " error

-- The handler's `except`: one attempt to say what broke; a second failure is only logged.
abbrev pub report_failure : Outside → List ℕ → Run → Sent
report_failure outside partners (Run.finished sent) = sent
report_failure outside partners (Run.raised e sent) =
    elim (send_dm outside partners (failure_text e) sent) [ err e' ↦ sent | ok after ↦ after ]

-- The worker thread of `make_handler`. `dm_partners` is agag's; a message without partners is not answered.
unfoldable pub react :
    (fuel timeout_seconds : ℕ)
    → Outside
    → (partners : List ℕ) → DirectMessage
    → (self_id : ℕ) → Option Sent
unfolding run_and_reply
react fuel timeout outside [] message self_id = some []
react fuel timeout outside (p ∷ ps) message self_id =
    elim (run_and_reply fuel timeout outside (p ∷ ps) message self_id) [
      | none ↦ none
      | some run ↦ some (report_failure outside (p ∷ ps) run)
    ]
