-- ===== src/Examples/ChangeRuns.antt =====
-- A Zulip that keeps every post, in order, for registering a change twice.
use pj_clusterintent.Prelude.{
  ℕ, String, Bool, true, Option, none, some, List, [], ◌∷◌, ◌++◌, length, suc, zero, str_eq,
  if◌then◌else◌, ◌&&◌, last_n,
}
use pj_clusterintent.Prelude.Text.{strip_prefix}
use pj_clusterintent.ChangeRecord.Notes.{own_record, Tag, Message, Reader, own_change}
use pj_clusterintent.ChangeRecord.Register.{
  Conversation, Client, Texts, Registered, history_messages, register_change, open_record,
  write_statement,
}
use pj_clusterintent.ChangeRecord.Names.{stem_of, change_topic_name}

abbrev Posts : Type 0
Posts = List (Conversation × String)

abbrev place : ℕ → Posts → Option Conversation
place n [] = none
place zero (x ∷ xs) = some x.0
place (suc n) (x ∷ xs) = place n xs

abbrev is_same_place : Conversation → Conversation → Bool
is_same_place c d = str_eq c.channel d.channel && str_eq c.topic d.topic

abbrev posts_from : Conversation → ℕ → Posts → List Message
posts_from c n [] = []
posts_from c n ((d, content) ∷ xs) =
    let rest = posts_from c (suc n) xs in
    if is_same_place c d then record { id = n; sender_id = 1; content = content } ∷ rest else rest

abbrev a_zulip : Client Posts
a_zulip = record {
  message = place;
  history = λ n c s. last_n n (posts_from c 0 s);
  live_topic_name = λ c s. c.topic;
  send = λ c content s. (some (length s), s ++ (c, content) ∷ []);
}

-- Numbers are written as so many strokes.
abbrev strokes : ℕ → String
strokes zero = ""
strokes (suc n) = String.◌∷◌ "|" (strokes n)

abbrev count_strokes : String → ℕ
count_strokes String.[] = 0
count_strokes (String.◌∷◌ c s) = suc (count_strokes s)

abbrev letter : Tag → String → String
letter Tag.change s = String.◌∷◌ "c" s
letter Tag.origin s = String.◌∷◌ "o" s
letter Tag.changerec s = String.◌∷◌ "r" s
letter Tag.doc s = String.◌∷◌ "d" s
letter Tag.state s = String.◌∷◌ "s" s

abbrev the_reader : Reader
the_reader = record {
  parse_note = λ content tag. strip_prefix (letter tag "") content;
  strip = λ text. text;
  int = λ text. some (count_strokes text);
}

abbrev the_texts : Texts
the_texts = record {
  split_document = λ text. some ("title", text);
  compose_document = λ title body. body;
  note = letter;
  digits = strokes;
  prefixes = record { resolved_topic_prefix = "R " };
  own_channel = "home";
  is_speech = λ m. true;
}

abbrev my_post : ℕ → String → Message
my_post id content = record { id = id; sender_id = 1; content = content }

change_runs : Unit {0}
unfolding strip_prefix
change_runs = tt

abbrev in_dev : Conversation
in_dev = record { channel = "dev"; topic = "dns" }

-- Someone has asked there; the sender is another one.
abbrev asked : Posts
asked = (in_dev, "please") ∷ []

abbrev its_home : Conversation
its_home = record { channel = "home"; topic = "change-dns-o|||" }

registered : Unit {0}
unfolding change_runs register_change open_record write_statement own_change own_record stem_of
    change_topic_name
registered = tt

abbrev first_run : Option Registered × Posts
first_run =
    register_change a_zulip the_reader the_texts 1 in_dev "text" (some 3)
      (a_zulip.history history_messages in_dev asked) asked
