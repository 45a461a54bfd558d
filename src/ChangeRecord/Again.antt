-- ===== src/ChangeRecord/Again.antt =====
-- `register_change` of change_record.py, called twice from one conversation. What Zulip and the notes of agag do
-- is a record of laws.
use mathlib.Core.List.{reverse-append}
use mathlib.Core.Path.{subst}
use pj_clusterintent.Prelude.{
  ℕ, String, Option, none, some, List, [], ◌∷◌, ◌++◌, ◌≡◌, ◌≢◌, refl, sym, ap, ◌∙◌, arith,
  Option-cases, inl, inr, length, length-append, suc, ◌+◌, ◌<◌, ◌≤◌,
}
use pj_clusterintent.ChangeRecord.Notes.{
  Tag, Message, Reader, own_change, own_record, earliest, newest, first_own, own_note, parse_id,
}
use pj_clusterintent.ChangeRecord.NotesLaws.{own_change_is_fixed}
use pj_clusterintent.ChangeRecord.Register.{
  Conversation, Client, Texts, history_messages, ◌then_send◌, write_statement, or_dash,
}

module _ {S : Type 0} (client : Client S) (reader : Reader) (texts : Texts) (self_id : ℕ) where
  abbrev pub posted : ℕ → String → Message
  posted id content = record { id = id; sender_id = self_id; content = content }

  -- A post stands at the end of its conversation and nowhere else, where one lookup reads it behind all
  -- others, if these are fewer than a lookup reads; a message is found by its id in the
  -- conversation it went to. A note reads as the note that was written.
  pub record IsZulip : Type 0 where
    pub appends :
        (c : Conversation) (content : String) (s s' : S) (id : ℕ)
        → client.send c content s ≡ (some id, s')
        → length (client.history history_messages c s) < history_messages
        → client.history history_messages c s'
          ≡ client.history history_messages c s ++ posted id content ∷ []
    pub elsewhere :
        (c d : Conversation) (content : String) (s s' : S) (id : ℕ)
        → client.send c content s ≡ (some id, s')
        → c ≢ d
        → client.history history_messages d s' ≡ client.history history_messages d s
    pub places :
        (c : Conversation) (content : String) (s s' : S) (id : ℕ)
        → client.send c content s ≡ (some id, s')
        → client.message id s' ≡ some c
    pub keeps :
        (c d : Conversation) (content : String) (s s' : S) (id other : ℕ)
        → client.send c content s ≡ (some id, s')
        → client.message other s ≡ some d
        → client.message other s' ≡ some d
    pub change_reads :
        (stem : String)
        → reader.parse_note (texts.note Tag.change (or_dash (reader.strip stem))) Tag.change
          ≡ some (or_dash (reader.strip stem))
    pub record_reads :
        (id : ℕ)
        → parse_id reader Tag.changerec (texts.note Tag.changerec (texts.digits id)) ≡ some id
    pub record_is_no_change :
        (id : ℕ) → reader.parse_note (texts.note Tag.changerec (texts.digits id)) Tag.change ≡ none

  pub then_send_inv :
      {A B : Type 0} (m : Option A × S) (f : A → S → Option B × S) (b : B) (s' : S)
      → (m then_send f) ≡ (some b, s')
      → (a : A) × (s1 : S) × (m ≡ (some a, s1)) × (f a s1 ≡ (some b, s'))
  then_send_inv (none, s) f b s' h = cc (ap (λ x. x.0) h)
  then_send_inv (some a, s) f b s' h = (a, s, refl, h)

  own_post :
      (id : ℕ) (content : String) {A : Type 0} (parse : String → Option A)
      → own_note self_id parse (posted id content) ≡ parse content
  own_post id content parse = ground arith

  earliest-last :
      {A : Type 0} (parse : String → Option A) (older : List Message) (m : Message)
      → earliest self_id parse older ≡ none
      → earliest self_id parse (older ++ m ∷ []) ≡ earliest self_id parse (m ∷ [])
  unfolding earliest
  earliest-last parse [] m h = refl
  earliest-last parse (x ∷ older) m h = elim (Option-cases (own_note self_id parse x)) [
    | inl e ↦ rw (e, earliest) (earliest-last parse older m (rw (e, earliest) at h))
    | inr (found, e) ↦ cc (rw (e, earliest) at h)
  ]

  own_record-last :
      (older : List Message) (id : ℕ) (content : String) (found : ℕ)
      → parse_id reader Tag.changerec content ≡ some found
      → own_record reader self_id (older ++ posted id content ∷ []) ≡ some found
  unfolding own_record newest first_own
  own_record-last older id content found h =
      let parse = parse_id reader Tag.changerec in
      ap (first_own self_id parse) (reverse-append older (posted id content ∷ []))
      ∙ rw (first_own, own_post id content parse ∙ h) refl

  abbrev with_id : ℕ → Option String → Option (ℕ × String)
  with_id id none = none
  with_id id (some stem) = some (id, stem)

  own_change-last :
      (older : List Message) (id : ℕ) (content : String) (stem : Option String)
      → own_change reader self_id older ≡ none
      → reader.parse_note content Tag.change ≡ stem
      → own_change reader self_id (older ++ posted id content ∷ []) ≡ with_id id stem
  unfolding own_change earliest
  own_change-last older id content stem empty h =
      let parse = λ (c : String). reader.parse_note c Tag.change in
      earliest-last parse older (posted id content) empty
      ∙ only stem (own_post id content parse ∙ h)
    where
      only :
          (o : Option String)
          → own_note self_id (λ c. reader.parse_note c Tag.change) (posted id content) ≡ o
          → earliest self_id (λ c. reader.parse_note c Tag.change) (posted id content ∷ [])
            ≡ with_id id o
      only none e = rw (e, earliest) refl
      only (some stem) e = rw (e, earliest) refl

  module _ (z : IsZulip) (here home : Conversation) (apart : here ≢ home) (anchor : ℕ)
      (word : String) where
    -- What is so once the change note stands in the new conversation, where `k` more messages can be read.
    pub record IsOpen (k : ℕ) (s : S) : Type 0 where
      pub room : length (client.history history_messages home s) + k ≤ history_messages
      pub room_here : length (client.history history_messages here s) < history_messages
      pub is_change :
          own_change reader self_id (client.history history_messages home s) ≡ some (anchor, word)
      pub is_found : client.message anchor s ≡ some home
      pub is_origin : own_change reader self_id (client.history history_messages here s) ≡ none

    longer :
        (c : Conversation) (content : String) (s s' : S) (id : ℕ)
        → client.send c content s ≡ (some id, s')
        → length (client.history history_messages c s) < history_messages
        → length (client.history history_messages c s')
          ≡ length (client.history history_messages c s) + 1
    longer c content s s' id sent room =
        ap length (z.appends c content s s' id sent room)
        ∙ length-append (client.history history_messages c s) (posted id content ∷ [])
        ∙ omega arith

    pub send-IsOpen :
        (k : ℕ) (content : String) (s s' : S) (id : ℕ)
        → client.send home content s ≡ (some id, s')
        → IsOpen (suc k) s
        → IsOpen k s'
    send-IsOpen k content s s' id sent o =
        let fits : length (client.history history_messages home s) < history_messages =
          omega (arith, o.room) in
        let untouched = z.elsewhere home here content s s' id sent (λ e. apart (sym e)) in
        record {
          room = omega (arith, o.room, longer home content s s' id sent fits);
          room_here = rw untouched o.room_here;
          is_change =
              ap (own_change reader self_id) (z.appends home content s s' id sent fits)
              ∙ own_change_is_fixed reader self_id (client.history history_messages home s)
                  (posted id content ∷ []) (anchor, word) o.is_change;
          is_found = z.keeps home home content s s' id anchor sent o.is_found;
          is_origin = ap (own_change reader self_id) untouched ∙ o.is_origin;
        }

    pub write_statement-IsOpen :
        (k : ℕ) (title body : String) (s s' : S) (id : ℕ)
        → write_statement client reader texts self_id home title body s ≡ (some id, s')
        → IsOpen (suc (suc k)) s
        → IsOpen k s'
    unfolding write_statement
    write_statement-IsOpen k title body s s' id h o =
        let (doc_id, s1, sent, more) = then_send_inv _ _ id s' h in
        let (note_id, s2, sent', last) = then_send_inv _ _ id s' more in
        subst (IsOpen k) (ap (λ x. x.1) last)
          (send-IsOpen k _ s1 s2 note_id sent' (send-IsOpen (suc k) _ s s1 doc_id sent o))

    -- The origin has its note.
    pub record_found :
        (s s' : S) (id : ℕ)
        → client.send here (texts.note Tag.changerec (texts.digits anchor)) s ≡ (some id, s')
        → IsOpen 0 s
        → (own_record reader self_id (client.history history_messages here s') ≡ some anchor)
          × (own_change reader self_id (client.history history_messages here s') ≡ none)
          × (own_change reader self_id (client.history history_messages home s')
              ≡ some (anchor, word))
          × (client.message anchor s' ≡ some home)
    record_found s s' id sent o =
        let content = texts.note Tag.changerec (texts.digits anchor) in
        let after = z.appends here content s s' id sent o.room_here in
        let older = client.history history_messages here s in
        (
          ap (own_record reader self_id) after
              ∙ own_record-last older id content anchor (z.record_reads anchor),
          ap (own_change reader self_id) after
              ∙ own_change-last older id content none o.is_origin (z.record_is_no_change anchor),
          ap (own_change reader self_id) (z.elsewhere here home content s s' id sent apart)
              ∙ o.is_change,
          z.keeps here home content s s' id anchor sent o.is_found,
        )

    pub opened :
        (k : ℕ) (s s' : S) (id : ℕ) (stem : String)
        → or_dash (reader.strip stem) ≡ word
        → client.send home (texts.note Tag.change (or_dash (reader.strip stem))) s
          ≡ (some anchor, s')
        → own_change reader self_id (client.history history_messages home s) ≡ none
        → own_change reader self_id (client.history history_messages here s) ≡ none
        → length (client.history history_messages home s) + suc k ≤ history_messages
        → length (client.history history_messages here s) < history_messages
        → IsOpen k s'
    opened k s s' id stem named sent empty origin room room_here =
        let content = texts.note Tag.change (or_dash (reader.strip stem)) in
        let fits : length (client.history history_messages home s) < history_messages =
          omega (arith, room) in
        let untouched = z.elsewhere home here content s s' anchor sent (λ e. apart (sym e)) in
        record {
          room = omega (arith, room, longer home content s s' anchor sent fits);
          room_here = rw untouched room_here;
          is_change =
              ap (own_change reader self_id) (z.appends home content s s' anchor sent fits)
              ∙ own_change-last (client.history history_messages home s) anchor content (some word)
                  empty (z.change_reads stem ∙ ap some named);
          is_found = z.places home content s s' anchor sent;
          is_origin = ap (own_change reader self_id) untouched ∙ origin;
        }
