-- ===== src/ChangeRecord/Once.antt =====
-- The "no duplicates" rule of `register_change`, from one registration to the next.
use Prim.Native.String.append
use pj_clusterintent.Prelude.{ℕ, String, Option, none, some, List, ◌≡◌}
use pj_clusterintent.ChangeRecord.Notes.{Message, Reader, own_change, own_record}
use pj_clusterintent.ChangeRecord.Names.{change_topic_name, stem_of}
use pj_clusterintent.ChangeRecord.Register.{
  Conversation, Client, Texts, history_messages, Change, Registered, read_change,
}
use pj_clusterintent.ChangeRecord.Again.{IsZulip}

module _ {S : Type 0} (client : Client S) (reader : Reader) (texts : Texts) (self_id : ℕ)
    (z : IsZulip client reader texts self_id) (here : Conversation) where
  abbrev history : Conversation → S → List Message
  history = client.history history_messages

  -- A later registration from this conversation will find the record.
  abbrev IsRegistered : ℕ → Conversation → S → Type 0
  IsRegistered anchor home s =
      (own_change reader self_id (history here s) ≡ none)
      × (own_record reader self_id (history here s) ≡ some anchor)
      × ((change : Change) × (read_change client reader texts self_id anchor s ≡ some change)
          × (change.anchor_id ≡ anchor)
          × (change.conversation ≡ home))

  abbrev IsRegisteredBy : Option Registered × S → Type 0
  IsRegisteredBy (some (Registered.recorded anchor home), s) = IsRegistered anchor home s
  IsRegisteredBy _ = Unit

  abbrev home_of : ℕ → Conversation
  home_of origin_id = record {
    channel = texts.own_channel;
    topic =
        change_topic_name reader.strip texts.prefixes texts.digits
          (stem_of reader.strip texts.prefixes here.topic) origin_id;
  }
