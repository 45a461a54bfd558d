-- ===== src/Examples/TopicsRuns.antt =====
-- One serving of a topic, on concrete runs.
use pj_clusterintent.Prelude.{String, ◌⊎◌, true, false, none, some, [], ◌∷◌, ◌≡◌, refl}
use pj_clusterintent.Prelude.Lines.{strip, is_blank}
use pj_clusterintent.Prelude.Result.{Result, ok, err}
use pj_clusterintent.Topics.{TopicError, plain_meta, run, handle_handoffs}
use pj_clusterintent.Topics.Serving.{
  FrontFiles, FrontReply, repair, wrote_chatlog, ran_front, posted, handed_off, Context, serve,
}
use pj_clusterintent.Topics.ServingLaws.{IsRaised, IsServed, serve_answers_first}

abbrev wanted : FrontFiles
wanted = record { requested_change = none; required_info = some "the free memory" }

abbrev no_reply : FrontReply
no_reply = record {
  answer = "no reply";
  split = record { is_ok = false; meta = none };
  marked = false;
  blocks = 0;
  error = "no reply";
}

abbrev marked_reply : String → FrontReply
marked_reply text = record {
  answer = text;
  split = record { is_ok = true; meta = some (record plain_meta { intent = some "report" }) };
  marked = true;
  blocks = 1;
  error = "";
}

abbrev of_second : Result TopicError String → Result TopicError FrontReply
of_second (ok text) = ok (marked_reply text)
of_second (err e) = ok no_reply

-- The front leaves a file at once, but marks its reply only when it is asked again; the operator fails.
abbrev repaired : Context
repaired = record {
  chatlog = λ drop. "> hello";
  prompt = "answer";
  run_role = λ prompt files. record { output = prompt; code_text = "0"; files = wanted };
  resolve_reply = λ output. repair "again" of_second;
  has_journal = false;
  intents = record { report = "report"; response_request = "request" };
  requester = some (some 7);
  processed_up_to = 12;
  compose = λ answer meta. answer;
  post = λ content. none;
  register_change = λ change. ok "recorded";
  run_operator = λ required. err (TopicError.listener_error "operator run exited 1: ");
}

-- The answer is posted and the raised error is the operator's.
repaired_effects :
    (serve repaired).effects
    ≡ wrote_chatlog "> hello"
      ∷ ran_front "answer"
      ∷ ran_front "again"
      ∷ posted "again"
      ∷ handed_off wanted
      ∷ []
unfolding serve run strip is_blank
repaired_effects = refl

repaired_result :
    (serve repaired).result ≡ err (TopicError.listener_error "operator run exited 1: ")
unfolding serve run strip is_blank handle_handoffs
repaired_result = refl

serve_answers_first_example :
    IsRaised repaired (serve repaired) ⊎ IsServed repaired (serve repaired)
serve_answers_first_example = serve_answers_first repaired
