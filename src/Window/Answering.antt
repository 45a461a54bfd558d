-- ===== src/Window/Answering.antt =====
-- Every direct message is answered, and the window's own acknowledgements are not conversation.
use Prim.Native.String
use Prim.Native.String.append
use pj_clusterintent.Prelude.{
  ℕ, String, true, ◌+◌, ◌/◌, ◌≤◌, Option, some, List, [], ◌∷◌, ◌++◌, is_some, ◌≡◌, refl, ap, inl,
  inr, arith, Bool-cases, Option-cases,
}
use pj_clusterintent.Prelude.Digits.{in_base}
use pj_clusterintent.Prelude.Lines.{is_blank, strip, starts_word}
use pj_clusterintent.Prelude.Result.{Result, ok, err, Result-cases}
use pj_clusterintent.Prelude.Text.{strip_prefix, strip_prefix_iff}
use pj_clusterintent.Prelude.WordLaws.{strip-dark, ends_dark, ends_dark-append, starts_word-append}
use pj_clusterintent.Window.{
  DirectMessage, Request, ack_prefix, ack_text, answer_text, is_our_ack, transcript_line,
  transcript_lines, wait, compose_text, format_transcript, reporter_label,
}
use pj_clusterintent.Window.Reply.{
  Outside, Sent, Run, last_send, reply_to, react, request_text, run_and_reply, run_request,
  report_failure,
}
use pj_clusterintent.Window.Waiting.{IsSlept, wait_ends}

-- The transcript of what the history shows, with the message's own reporter and reference, was taken by
-- the window's door, under this id.
pub record IsAsked (outside : Outside) (partners : List ℕ) (message : DirectMessage) (self_id : ℕ)
    (request_id : String) : Type 0 where
  shown : List DirectMessage
  read : outside.dm_history partners ≡ ok shown
  asked :
      outside.ask (
        compose_text
          (format_transcript shown self_id)
          (reporter_label message)
          (String.◌++◌ "zulip message " (in_base 10 message.id)))
      ≡ ok request_id

-- What broke: the history could not be read, the door did not take the text, or the wait for this very
-- request raised.
pub data IsBroken (fuel timeout_seconds : ℕ) (outside : Outside) (partners : List ℕ)
    (message : DirectMessage) (self_id : ℕ) : (sent_before : Sent) → (e : String) → Type 0 where
  in_history :
      (e : String)
      → outside.dm_history partners ≡ err e
      → IsBroken fuel timeout_seconds outside partners message self_id [] e
  in_asking :
      (shown : List DirectMessage) (e : String)
      → outside.dm_history partners ≡ ok shown
      → outside.ask (
          compose_text
            (format_transcript shown self_id)
            (reporter_label message)
            (String.◌++◌ "zulip message " (in_base 10 message.id)))
        ≡ err e
      → IsBroken fuel timeout_seconds outside partners message self_id [] e
  in_waiting :
      (request_id e : String)
      → IsAsked outside partners message self_id request_id
      → wait fuel timeout_seconds outside.start (outside.polls request_id) ≡ some (err e)
      → IsBroken fuel timeout_seconds outside partners message self_id
          ((partners, ack_text request_id) ∷ [])
          e

-- What was sent for a message: an acknowledgement that names the request and the answer to that request,
-- or what went out before something broke, and the report of it.
pub data IsAnswered (fuel timeout_seconds : ℕ) (outside : Outside) (partners : List ℕ)
    (message : DirectMessage) (self_id : ℕ) : Sent → Type 0 where
  answered :
      (request_id : String) (request : Request)
      → IsAsked outside partners message self_id request_id
      → wait fuel timeout_seconds outside.start (outside.polls request_id) ≡ some (ok request)
      → IsAnswered fuel timeout_seconds outside partners message self_id
          ((partners, ack_text request_id) ∷ (partners, answer_text request) ∷ [])
  broken :
      (before : Sent) (e : String)
      → IsBroken fuel timeout_seconds outside partners message self_id before e
      → IsAnswered fuel timeout_seconds outside partners message self_id (
          before
          ++ (partners, String.◌++◌ "Something broke between the chat and the window: " e) ∷ [])

module _ (fuel timeout_seconds : ℕ) (outside : Outside)
    (delivered : (n : ℕ) → outside.delivers n ≡ true)
    (slept : (request_id : String) → IsSlept outside.start (outside.polls request_id))
    (enough : timeout_seconds / 3 + 2 ≤ fuel) where
  module _ (partners : List ℕ) (message : DirectMessage) (self_id : ℕ) where
    abbrev AnsweredBy : Option Run → Type 0
    AnsweredBy run =
        (r : Run) × (run ≡ some r)
        × IsAnswered fuel timeout_seconds outside partners message self_id
            (report_failure outside partners r)

    run_request_IsAnswered :
        (request_id : String)
        → IsAsked outside partners message self_id request_id
        → AnsweredBy (run_request fuel timeout_seconds outside partners request_id)
    run_request_IsAnswered request_id asked =
        elim (Option-cases (wait fuel timeout_seconds outside.start (outside.polls request_id))) [
          | inl endless ↦ cc (
              rw endless at (
                wait_ends fuel timeout_seconds outside.start (outside.polls request_id)
                  (slept request_id) enough))
          | inr (result, waited) ↦ rw (run_request, delivered 0) (rw waited (given result waited))
        ]
      where
        given :
            (result : Result String Request)
            → wait fuel timeout_seconds outside.start (outside.polls request_id) ≡ some result
            → AnsweredBy
                (some (reply_to outside partners ((partners, ack_text request_id) ∷ []) result))
        given (err e) waited = (
          _,
          refl,
          rw (report_failure, delivered 1)
              (IsAnswered.broken _ e (IsBroken.in_waiting request_id e asked waited)),
        )
        given (ok r) waited = (
          _,
          refl,
          rw (report_failure, reply_to, last_send, delivered 1)
              (IsAnswered.answered request_id r asked waited),
        )

    run_and_reply_IsAnswered :
        AnsweredBy (run_and_reply fuel timeout_seconds outside partners message self_id)
    unfolding run_and_reply request_text
    run_and_reply_IsAnswered = elim (Result-cases (outside.dm_history partners)) [
      | inl (e, failed) ↦ rw (run_and_reply, failed) (broken_off e (IsBroken.in_history e failed))
      | inr (history, read) ↦
          rw (run_and_reply, read)
            (elim (Result-cases (outside.ask (request_text message self_id history))) [
              | inl (e, failed) ↦
                  rw failed (broken_off e (IsBroken.in_asking history e read failed))
              | inr (request_id, asked) ↦ rw asked (
                  run_request_IsAnswered request_id
                    (record { shown = history; read = read; asked = asked }))
            ])
    ]
      where
        broken_off :
            (e : String)
            → IsBroken fuel timeout_seconds outside partners message self_id [] e
            → AnsweredBy (some (Run.raised e []))
        broken_off e why =
            (Run.raised e [], refl, rw (report_failure, delivered 0) (IsAnswered.broken [] e why))

  -- Where Zulip delivers every message that is sent, a direct message with partners gets an acknowledgement
  -- that names its request and the answer to that request, whose text was the transcript of the history
  -- with the message's reporter and reference; or it is told what broke: reading the history, asking, which
  -- are told at once, or the wait for that request, told behind the acknowledgement. The condition on the
  -- clock is that a sleep lasts as long as it is told.
  pub react_answers :
      (p : ℕ) (ps : List ℕ) (message : DirectMessage) (self_id : ℕ)
      → (sent : Sent) × (react fuel timeout_seconds outside (p ∷ ps) message self_id ≡ some sent)
        × IsAnswered fuel timeout_seconds outside (p ∷ ps) message self_id sent
  unfolding react
  react_answers p ps message self_id =
      let (run, ran, is_answered) = run_and_reply_IsAnswered (p ∷ ps) message self_id in
      (report_failure outside (p ∷ ps) run, rw (react, ran) refl, is_answered)

ack_text-IsAck :
    (request_id : String) → is_some (strip_prefix ack_prefix (strip (ack_text request_id))) ≡ true
unfolding ack_text
ack_text-IsAck request_id =
    rw (strip-dark (ack_text request_id) starts ends)
      (rw ((strip_prefix_iff ack_prefix (ack_text request_id) _).1 refl) refl)
  where
    starts : starts_word (ack_text request_id) ≡ true
    starts =
        starts_word-append ack_prefix (String.◌++◌ " (request `" (String.◌++◌ request_id "`)"))
          (unfold is_blank in refl)

    ends : ends_dark (ack_text request_id) ≡ true
    ends = ends_dark-append ack_prefix (String.◌++◌ " (request `" (String.◌++◌ request_id "`)")) (
        ends_dark-append " (request `" (String.◌++◌ request_id "`)")
          (ends_dark-append request_id "`)" (unfold is_blank in refl)))

is_our_ack_lem :
    (self_id : ℕ) (m : DirectMessage) (request_id : String)
    → m.sender_id ≡ self_id
    → m.content ≡ ack_text request_id
    → is_our_ack self_id m ≡ true
is_our_ack_lem self_id m request_id h k = rw (h, k) (ground (arith, ack_text-IsAck request_id))

-- An acknowledgement that the window sent is left out of every later transcript, whichever request it names.
pub transcript_lines-ack :
    (self_id : ℕ) (m : DirectMessage) (before after : List DirectMessage) (request_id : String)
    → m.sender_id ≡ self_id
    → m.content ≡ ack_text request_id
    → transcript_lines self_id (before ++ m ∷ after) ≡ transcript_lines self_id (before ++ after)
unfolding transcript_lines
transcript_lines-ack self_id m [] after request_id h k =
    rw (is_our_ack_lem self_id m request_id h k) refl
transcript_lines-ack self_id m (b ∷ before) after request_id h k =
    elim (Bool-cases (is_our_ack self_id b)) [
      | inl e ↦ rw e (transcript_lines-ack self_id m before after request_id h k)
      | inr e ↦ rw e (
          ap (λ ls. transcript_line self_id b ∷ ls)
            (transcript_lines-ack self_id m before after request_id h k))
    ]
