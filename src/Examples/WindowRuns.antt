-- ===== src/Examples/WindowRuns.antt =====
-- A direct message to the window, a serving of a topic, and a start of the service.
use Prim.Native.String
use pj_clusterintent.Store.Owner.{Identity}
use pj_clusterintent.Prelude.{
  Option, String, true, false, ◌≡◌, ◌≢◌, refl, [], ◌∷◌, some, none, is_some, arith, ◌+◌, ◌*◌,
}
use pj_clusterintent.Prelude.Lines.{is_blank, strip}
use pj_clusterintent.Prelude.Result.{Result, ok, err}
use pj_clusterintent.Auth.{human_identity, token_authenticate}
use pj_clusterintent.Runner.{Agent}
use pj_clusterintent.Evidence.{list_request_ids}
use pj_clusterintent.Prelude.Sort.{sort}
use pj_clusterintent.Startup.{Service, read_human_token, startup}
use pj_clusterintent.Store.Scan.{scan_and_load}
use pj_clusterintent.Startup.Laws.{started_needs_token}
use pj_clusterintent.Topics.{Intents, PostMeta, TopicError}
use pj_clusterintent.Window.{DirectMessage, Polls, Request, wait}
use pj_clusterintent.Window.Answering.{IsAnswered, react_answers}
use pj_clusterintent.Window.Reply.{Outside, Sent, react}
use pj_clusterintent.Window.Waiting.{wait_ends}
use pj_clusterintent.Examples.RunnerRuns.{an_agent}

abbrev running : Request
running = record { state = some "running"; response = none; error = none }

-- A door whose turn never ends, and a clock that sleeps just as long as it is told.
abbrev endless : Polls
endless = record { call = λ n. ok running; monotonic = λ n. 100 + n * 3000 }

wait_ends_example : is_some (wait 142 420 100 endless) ≡ true
wait_ends_example = wait_ends 142 420 100 endless (λ n. omega arith) (omega arith)

abbrev outside : Outside
outside = record {
  dm_history = λ partners. ok [];
  ask = λ text. ok "req_1";
  delivers = λ n. true;
  start = 100;
  polls = λ request_id. endless;
}

abbrev hello : DirectMessage
hello = record { id = 41; sender_id = 8; sender_full_name = some "Ann"; content = "hello" }

react_answers_example :
    (sent : Sent) × (react 142 420 outside (8 ∷ []) hello 3 ≡ some sent)
    × IsAnswered 142 420 outside (8 ∷ []) hello 3 sent
react_answers_example =
    react_answers 142 420 outside (λ n. refl) (λ request_id n. omega arith) (omega arith) 8 [] hello
      3

abbrev no_record : String → Result TopicError String
no_record change = err (TopicError.record_error "no channel")

abbrev all_up : String → Result TopicError String
all_up required = ok "all up"

abbrev intents : Intents
intents = record { report = "report"; response_request = "request" }

abbrev asks : PostMeta
asks = record { intent = some "request"; to = none; ask = none; re = none; seen = none }

abbrev build_runner : String → Result String Agent
build_runner role = ok an_agent

abbrev service : Service
service = record {
  store = record { requests = []; sessions = []; evidence = some [] };
  newly_interrupted = [];
  node = record { agent = an_agent; serve_ui = false; guide = false };
  human = record { agent = an_agent; serve_ui = true; guide = false };
  window = record { agent = an_agent; serve_ui = false; guide = true };
  human_token = "secret";
}

starts : startup build_runner (some " secret\n") 5 [] ≡ ok service
unfolding startup read_human_token strip is_blank scan_and_load list_request_ids sort
starts = refl

started_needs_token_example :
    (text : String) × (some " secret\n" ≡ some text)
    × ("secret" ≡ strip text)
    × (service.human_token ≢ "")
    × ((human_name : String) (header : Option String) (identity : Identity)
        → token_authenticate "secret" human_name header ≡ ok identity
        → (header ≡ some (String.◌++◌ "Bearer " (strip text)))
          × (identity ≡ human_identity human_name))
started_needs_token_example =
    started_needs_token build_runner (some " secret\n") 5 [] service starts
