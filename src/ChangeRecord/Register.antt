-- ===== src/ChangeRecord/Register.antt =====
-- `register_change` of change_record.py and what it calls. The Zulip client is an argument over a state
-- of its own; `none` of a call that sends is a RecordError, behind which nothing more is sent.
use pj_clusterintent.Prelude.{
  ℕ, String, Bool, not, ◌==◌, ◌||◌, Option, none, some, List, [], ◌∷◌, reverse, if◌then◌else◌,
  str_eq,
}
use pj_clusterintent.ChangeRecord.Notes.{
  Tag, Message, Reader, own_change, own_origin, own_record, own_doc, own_state,
}
use pj_clusterintent.ChangeRecord.Names.{Prefixes, stem_of, change_topic_name}

pub record Conversation : Type 0 where
  pub channel : String
  pub topic : String

-- How much of a conversation one lookup reads.
abbrev pub history_messages : ℕ
history_messages = 500

-- The calls of agag's client, and the texts that are written; `history` reads the newest messages of a
-- conversation, as many as it is told at most.
pub record Client (S : Type 0) : Type 1 where
  pub message : ℕ → S → Option Conversation
  pub history : ℕ → Conversation → S → List Message
  pub live_topic_name : Conversation → S → String
  pub send : Conversation → String → S → Option ℕ × S

pub record Texts : Type 0 where
  pub split_document : String → Option (String × String)
  pub compose_document : (title body : String) → String
  pub note : Tag → String → String
  pub digits : ℕ → String
  pub prefixes : Prefixes
  pub own_channel : String
  pub is_speech : Message → Bool

pub record Change : Type 0 where
  pub anchor_id : ℕ
  pub stem : String
  pub conversation : Conversation
  pub origin_id : Option ℕ
  pub doc_id : Option ℕ
  pub state : Option String

-- What a registration did: the record is here, it is another one, or it is new.
pub data Registered : Type 0 where
  restated_here : ℕ → Registered
  restated_in : ℕ → Conversation → Registered
  recorded : ℕ → Conversation → Registered

-- The text of a change note, which is never empty.
abbrev pub or_dash : String → String
or_dash stem = if str_eq stem "" then "-" else stem

-- A chain of calls that send.
infixl 5 ◌then_send◌
abbrev pub ◌then_send◌ : {S A B : Type 0} → Option A × S → (A → S → Option B × S) → Option B × S
(none, s) then_send f = (none, s)
(some a, s) then_send f = f a s

module _ {S : Type 0} (client : Client S) (reader : Reader) (texts : Texts) (self_id : ℕ) where
  unfoldable pub conversation_of : ℕ → S → Option Conversation
  conversation_of anchor_id s = elim (client.message anchor_id s) [
    | none ↦ none
    | some where_ ↦ if str_eq where_.channel "" || str_eq where_.topic "" then none else some where_
  ]

  abbrev pub change_at : ℕ → Conversation → List Message → Option Change
  change_at anchor_id where_ history = elim (own_change reader self_id history) [
    | none ↦ none
    | some (found, stem) ↦
        if found == anchor_id
        then some (record {
          anchor_id = anchor_id;
          stem = stem;
          conversation = where_;
          origin_id = own_origin reader self_id history;
          doc_id = own_doc reader self_id history;
          state = own_state reader self_id history;
        })
        else none
  ]

  unfoldable pub read_change : ℕ → S → Option Change
  unfolding conversation_of
  read_change anchor_id s = elim (conversation_of anchor_id s) [
    | none ↦ none
    | some where_ ↦ change_at anchor_id where_ (client.history history_messages where_ s)
  ]

  unfoldable pub write_statement : Conversation → (title body : String) → S → Option ℕ × S
  write_statement where_ title body s =
      client.send where_ (texts.compose_document title body) s then_send λ doc_id s1.
      client.send where_ (texts.note Tag.doc (texts.digits doc_id)) s1 then_send λ note_id s2.
      (some doc_id, s2)

  unfoldable pub asking_message_id : List Message → Option ℕ
  asking_message_id [] = none
  asking_message_id (m ∷ older) =
      let rest = asking_message_id older in
      if m.sender_id == self_id || not (texts.is_speech m) then rest else some m.id

  abbrev pub live : Conversation → S → Conversation
  live where_ s = record where_ { topic = client.live_topic_name where_ s }

  -- The third case: a record is opened, and the origin is given its anchor.
  unfoldable pub open_record :
      Conversation → (title body : String) → (origin_id : ℕ) → S → Option Registered × S
  unfolding write_statement stem_of change_topic_name
  open_record here title body origin_id s =
      let stem = stem_of reader.strip texts.prefixes here.topic in
      let home : Conversation = record {
        channel = texts.own_channel;
        topic = change_topic_name reader.strip texts.prefixes texts.digits stem origin_id;
      } in
      client.send home (texts.note Tag.change (or_dash (reader.strip stem))) s
      then_send λ anchor_id s1.
          client.send home (texts.note Tag.origin (texts.digits origin_id)) s1 then_send λ o s2.
          write_statement home title body s2 then_send λ d s3.
          client.send home (texts.note Tag.state "requested") s3 then_send λ t s4.
          client.send here (texts.note Tag.changerec (texts.digits anchor_id)) s4 then_send λ r s5.
          (some (Registered.recorded anchor_id home), s5)

  abbrev pub or_asking : Option ℕ → List Message → Option ℕ
  or_asking (some origin_id) history = some origin_id
  or_asking none history = asking_message_id (reverse history)

  abbrev pub open_if_asked :
      Conversation → (title body : String) → Option ℕ → S → Option Registered × S
  open_if_asked here title body none s = (none, s)
  open_if_asked here title body (some origin_id) s = open_record here title body origin_id s

  abbrev pub existing_change : List Message → S → Option Change
  existing_change history s = elim (own_record reader self_id history) [
    | none ↦ none
    | some anchor_id ↦ read_change anchor_id s
  ]

  abbrev pub restate_here : Conversation → (title body : String) → ℕ → S → Option Registered × S
  restate_here here title body anchor_id s = write_statement here title body s then_send λ d s1.
      (some (Registered.restated_here anchor_id), s1)

  abbrev pub restate_in : Conversation → (title body : String) → ℕ → S → Option Registered × S
  restate_in where_ title body anchor_id s = write_statement where_ title body s then_send λ d s1.
      (some (Registered.restated_in anchor_id where_), s1)

  abbrev pub register_document :
      Conversation → (title body : String) → Option ℕ → List Message → S → Option Registered × S
  register_document here title body origin_id history s = elim (own_change reader self_id history) [
    | some (anchor_id, stem) ↦ restate_here here title body anchor_id s
    | none ↦ elim (existing_change history s) [
      | some change ↦ restate_in (live change.conversation s) title body change.anchor_id s
      | none ↦ open_if_asked here title body (or_asking origin_id history) s
    ]
  ]

  -- With the history that the caller has read; `register_change` reads it when there is none.
  unfoldable pub register_change :
      Conversation → String → Option ℕ → List Message → S → Option Registered × S
  unfolding open_record read_change
  register_change here change_text origin_id history s = elim (texts.split_document change_text) [
    | none ↦ (none, s)
    | some (title, body) ↦ register_document here title body origin_id history s
  ]

  -- `none` is the RecordError of a note that could not be sent.
  unfoldable pub set_state : Change → String → S → Option ℕ × S
  set_state change state s = client.send change.conversation (texts.note Tag.state state) s
