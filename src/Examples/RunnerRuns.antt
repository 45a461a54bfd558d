-- ===== src/Examples/RunnerRuns.antt =====
-- A turn through a backend that does not finish, a guarded command, and the notes of a conversation.
use pj_clusterintent.Prelude.{
  ℕ, String, Bool, true, false, ◌≡◌, refl, arith, ◌≢◌, Option, none, some, [], ◌∷◌, inl, inr,
  str_eq, if◌then◌else◌, suc, leb, ◌&&◌,
}
use pj_clusterintent.Prelude.Lines.{is_blank, all_chars}
use pj_clusterintent.Prelude.Text.{strip_prefix}
use pj_clusterintent.Prelude.Result.{err}
use pj_clusterintent.Worker.{run_one}
use pj_clusterintent.Worker.Laws.{HasEnded}
use pj_clusterintent.Runner.Destroy.{ascii, guarded_run, DestroyRefusal}
use pj_clusterintent.Runner.Spelled.{Spelled, nothing, same, capital, gap, wider}
use pj_clusterintent.Runner.Squeezed.{ascii-LowersAscii}
use pj_clusterintent.Runner.{Agent, AgcodeResult, HarnessResult, run}
use pj_clusterintent.Runner.Laws.{queued_request_ends, guarded_run_refuses}
use pj_clusterintent.ChangeRecord.Notes.{
  Tag, Message, Reader, own_change, own_record, own_origin, own_doc, own_state,
}
use pj_clusterintent.ChangeRecord.Register.{
  Client, Texts, Conversation, Change, register_change, existing_change, read_change,
}
use pj_clusterintent.ChangeRecord.RegisterLaws.{record_is_restated}
use pj_clusterintent.Examples.StoreRuns.{store_runs}
use pj_clusterintent.Examples.ServerRuns.{system, req_1, req_1_is_there, undisturbed}

abbrev pub an_agent : Agent
an_agent = record {
  harness = "agcode";
  provider = "p";
  model = "m";
  role = "front";
  profile = "local";
  max_tokens = none;
}

abbrev gives_up : ℕ → String → Option AgcodeResult
gives_up max_tokens task = some (record {
  output = "";
  outcome = some "failed";
  failure_kind = none;
  failure = some "deadline";
})

abbrev no_harness : String → Option HarnessResult
no_harness task = none

queued_request_ends_example :
    HasEnded "req_1" (run_one (run 4096 gives_up no_harness an_agent) undisturbed 60 "req_1" system)
queued_request_ends_example =
    queued_request_ends 4096 gives_up no_harness an_agent undisturbed 60 "req_1" system req_1
      req_1_is_there (unfold store_runs in refl) (λ z h. h)

abbrev echo : String → String
echo command = command

-- A word of small letters is spelled as it is.
small_word : (w : String) → all_chars (λ c. leb 97 c && leb c 122) w ≡ true → Spelled w w
unfolding is_blank
small_word String.[] h = nothing
small_word (String.◌∷◌ c w) h =
    same c (ground arith) (inr (ground arith)) (small_word w (ground arith))

qm_destroy : Spelled "qm destroy" "QM   destroy"
unfolding is_blank
qm_destroy = capital "q" "Q" (omega arith) (omega arith) refl (
    capital "m" "M" (omega arith) (omega arith) refl (
      wider " " " " refl refl
        (wider " " " " refl refl (gap " " " " refl refl refl (small_word "destroy" refl)))))

guarded_run_refuses_example :
    (refusal : DestroyRefusal) × (guarded_run ascii echo "sudo  QM   destroy 101" ≡ err refusal)
guarded_run_refuses_example =
    guarded_run_refuses ascii echo "qm destroy" "QM   destroy" "sudo  " " 101" ascii-LowersAscii
      (inr (inr (inr (inr (inr (inr (inl refl))))))) qm_destroy refl

-- A reader for which a note is its tag's first letter, a space, and one text.
abbrev is_change : Tag → Bool
is_change Tag.change = true
is_change _ = false

abbrev a_reader : Reader
a_reader = record {
  parse_note =
      λ content tag. if is_change tag then strip_prefix "c " content else strip_prefix "r " content;
  strip = λ text. text;
  int = λ text. some 7;
}

abbrev anchor : Message
anchor = record { id = 5; sender_id = 1; content = "c dns" }

abbrev impostor : Message
impostor = record { id = 6; sender_id = 2; content = "c mail" }

abbrev given_note : Message
given_note = record { id = 4; sender_id = 1; content = "r 7" }

the_anchor : own_change a_reader 1 (anchor ∷ []) ≡ some (5, "dns")
unfolding own_change strip_prefix
the_anchor = refl

two_is_not_one : ◌≢◌ {A = ℕ} 2 1
two_is_not_one h = ground arith

-- A Zulip that counts what is written outside of the channel "home".
abbrev a_client : Client ℕ
a_client = record {
  message = λ id s. some (record { channel = "home"; topic = "change-dns" });
  history = λ n where_ s. record { id = 7; sender_id = 1; content = "c dns" } ∷ [];
  live_topic_name = λ where_ s. where_.topic;
  send = λ where_ content s. (some 9, if str_eq where_.channel "home" then s else suc s);
}

abbrev some_texts : Texts
some_texts = record {
  split_document = λ text. some ("title", text);
  compose_document = λ title body. body;
  note = λ tag text. text;
  digits = λ n. "7";
  prefixes = record { resolved_topic_prefix = "R " };
  own_channel = "home";
  is_speech = λ m. true;
}

abbrev at_home : Conversation
at_home = record { channel = "home"; topic = "change-dns" }

abbrev elsewhere : Conversation
elsewhere = record { channel = "dev"; topic = "dns" }

abbrev NothingElsewhere : ℕ → Type 0
NothingElsewhere s = s ≡ 0

record_is_restated_example :
    NothingElsewhere
      (register_change a_client a_reader some_texts 1 at_home "text" none (anchor ∷ []) 0).1
record_is_restated_example =
    record_is_restated a_client a_reader some_texts 1 NothingElsewhere at_home "text" none
      (anchor ∷ []) 0 5 "dns" the_anchor (λ content s h. h) refl

abbrev the_change : Change
the_change = record {
  anchor_id = 7;
  stem = "dns";
  conversation = at_home;
  origin_id = none;
  doc_id = none;
  state = none;
}

no_anchor : own_change a_reader 1 (given_note ∷ []) ≡ none
unfolding own_change strip_prefix
no_anchor = refl

the_existing : existing_change a_client a_reader some_texts 1 (given_note ∷ []) 0 ≡ some the_change
unfolding own_record own_change own_origin own_doc own_state read_change strip_prefix
the_existing = refl
