-- ===== src/ChangeRecord/RegisterLaws.antt =====
-- The "no duplicates" rule of `register_change`: where a registration may write.
use pj_clusterintent.Prelude.{ℕ, String, Option, none, some, List, ◌≡◌, Option-cases, inl, inr}
use pj_clusterintent.ChangeRecord.Notes.{Tag, Message, Reader, own_change}
use pj_clusterintent.ChangeRecord.Register.{
  Conversation, Client, Texts, Change, Registered, ◌then_send◌, write_statement, register_change,
  existing_change, live, register_document,
}

module _ {S : Type 0} (client : Client S) (reader : Reader) (texts : Texts) (self_id : ℕ)
    (Inv : S → Type 0) where
  -- What is true of Zulip stays true when something is written into this conversation.
  abbrev pub IsKeptBy : Conversation → Type 0
  IsKeptBy where_ = (content : String) (s : S) → Inv s → Inv (client.send where_ content s).1

  then_send-IsKept :
      {A B : Type 0} (m : Option A × S) (f : A → S → Option B × S)
      → Inv m.1
      → ((a : A) (s : S) → Inv s → Inv (f a s).1)
      → Inv (m then_send f).1
  then_send-IsKept (none, s) f h k = h
  then_send-IsKept (some a, s) f h k = k a s h

  write_statement-IsKept :
      (where_ : Conversation) (title body : String) (s : S)
      → IsKeptBy where_
      → Inv s
      → Inv (write_statement client reader texts self_id where_ title body s).1
  unfolding write_statement
  write_statement-IsKept where_ title body s keeps h =
      then_send-IsKept (client.send where_ (texts.compose_document title body) s)
        (λ doc_id s1.
          client.send where_ (texts.note Tag.doc (texts.digits doc_id)) s1 then_send λ note_id s2.
          (some doc_id, s2))
        (keeps _ s h)
        (λ doc_id s1 h1.
          then_send-IsKept (client.send where_ (texts.note Tag.doc (texts.digits doc_id)) s1)
            (λ note_id s2. (some doc_id, s2)) (keeps _ s1 h1) (λ n s2 h2. h2))

  register_document-of_record :
      (here : Conversation) (title body : String) (origin_id : Option ℕ) (history : List Message)
      (s : S) (anchor_id : ℕ) (stem : String)
      → own_change reader self_id history ≡ some (anchor_id, stem)
      → IsKeptBy here
      → Inv s
      → Inv (register_document client reader texts self_id here title body origin_id history s).1
  register_document-of_record here title body origin_id history s anchor_id stem e keeps h =
      rw (register_document, e)
        (then_send-IsKept (write_statement client reader texts self_id here title body s)
          (λ d s1. (some (Registered.restated_here anchor_id), s1))
          (write_statement-IsKept here title body s keeps h) (λ d s1 h1. h1))

  register_document-of_topic :
      (here : Conversation) (title body : String) (origin_id : Option ℕ) (history : List Message)
      (s : S) (change : Change)
      → own_change reader self_id history ≡ none
      → existing_change client reader texts self_id history s ≡ some change
      → IsKeptBy (live client reader texts self_id change.conversation s)
      → Inv s
      → Inv (register_document client reader texts self_id here title body origin_id history s).1
  register_document-of_topic here title body origin_id history s change e f keeps h =
      let where_ = live client reader texts self_id change.conversation s in
      rw (register_document, e, f)
        (then_send-IsKept (write_statement client reader texts self_id where_ title body s)
          (λ d s1. (some (Registered.restated_in change.anchor_id where_), s1))
          (write_statement-IsKept where_ title body s keeps h) (λ d s1 h1. h1))

  -- Registering in a conversation that is a record writes into that conversation only: whatever of
  -- Zulip every post there keeps true stays true.
  pub record_is_restated :
      (here : Conversation) (change_text : String) (origin_id : Option ℕ) (history : List Message)
      (s : S) (anchor_id : ℕ) (stem : String)
      → own_change reader self_id history ≡ some (anchor_id, stem)
      → IsKeptBy here
      → Inv s
      → Inv (register_change client reader texts self_id here change_text origin_id history s).1
  unfolding register_change
  record_is_restated here change_text origin_id history s anchor_id stem e keeps h =
      elim (Option-cases (texts.split_document change_text)) [
        | inl q ↦ rw (register_change, q) h
        | inr ((title, body), q) ↦
            rw (register_change, q)
              (register_document-of_record here title body origin_id history s anchor_id stem e
                keeps h)
      ]

  -- Registering in a topic that already has a record, whose anchor still stands, writes into that
  -- record only, under the name that its topic has now: whatever of Zulip every post there keeps true
  -- stays true.
  given_record_is_restated :
      (here : Conversation) (change_text : String) (origin_id : Option ℕ) (history : List Message)
      (s : S) (change : Change)
      → own_change reader self_id history ≡ none
      → existing_change client reader texts self_id history s ≡ some change
      → IsKeptBy (live client reader texts self_id change.conversation s)
      → Inv s
      → Inv (register_change client reader texts self_id here change_text origin_id history s).1
  unfolding register_change
  given_record_is_restated here change_text origin_id history s change e f keeps h =
      elim (Option-cases (texts.split_document change_text)) [
        | inl q ↦ rw (register_change, q) h
        | inr ((title, body), q) ↦
            rw (register_change, q)
              (register_document-of_topic here title body origin_id history s change e f keeps h)
      ]
