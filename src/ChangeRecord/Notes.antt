-- ===== src/ChangeRecord/Notes.antt =====
-- cagent/src/cagent_api/change_record.py: reading a conversation's own notes. `parse_note` is agag's, and
-- `int` is Python's, `none` being its ValueError.
use pj_clusterintent.Prelude.{
  ℕ, String, ◌==◌, ◌||◌, Option, none, some, List, [], ◌∷◌, reverse, any, str_eq, if◌then◌else◌,
}
use pj_clusterintent.Prelude.Text.{lower}

pub data Tag : Type 0 where
  change origin changerec doc state : Tag

pub record Message : Type 0 where
  pub id : ℕ
  pub sender_id : ℕ
  pub content : String

module _ {A : Type 0} (self_id : ℕ) (parse : String → Option A) where
  -- What a message says, if this bot wrote it.
  abbrev pub own_note : Message → Option A
  own_note m = if m.sender_id == self_id then parse m.content else none

  unfoldable pub earliest : List Message → Option (ℕ × A)
  earliest [] = none
  earliest (m ∷ ms) = elim (own_note m) [ none ↦ earliest ms | some found ↦ some (m.id, found) ]

  unfoldable pub first_own : List Message → Option A
  first_own [] = none
  first_own (m ∷ ms) = elim (own_note m) [ none ↦ first_own ms | some found ↦ some found ]

  unfoldable pub newest : List Message → Option A
  unfolding first_own
  newest messages = first_own (reverse messages)

-- What agag and Python give.
pub record Reader : Type 0 where
  pub parse_note : String → Tag → Option String
  pub strip : String → String
  pub int : String → Option ℕ

abbrev pub as_id : Reader → Option String → Option ℕ
as_id reader none = none
as_id reader (some value) = reader.int (reader.strip value)

abbrev pub parse_id : Reader → Tag → String → Option ℕ
parse_id reader tag content = as_id reader (reader.parse_note content tag)

unfoldable pub own_change : Reader → ℕ → List Message → Option (ℕ × String)
unfolding earliest
own_change reader self_id messages = earliest self_id (λ c. reader.parse_note c Tag.change) messages

abbrev second : Option (ℕ × ℕ) → Option ℕ
second none = none
second (some (id, found)) = some found

unfoldable pub own_origin : Reader → ℕ → List Message → Option ℕ
unfolding earliest
own_origin reader self_id messages = second (earliest self_id (parse_id reader Tag.origin) messages)

unfoldable pub own_record : Reader → ℕ → List Message → Option ℕ
unfolding newest
own_record reader self_id messages = newest self_id (parse_id reader Tag.changerec) messages

unfoldable pub own_doc : Reader → ℕ → List Message → Option ℕ
unfolding newest
own_doc reader self_id messages = newest self_id (parse_id reader Tag.doc) messages

abbrev pub external_states : List String
external_states = "accepted" ∷ "done" ∷ "rejected" ∷ []

-- The loop of `own_state`, on the messages newest first.
unfoldable pub first_state : Reader → ℕ → List Message → Option String
unfolding lower
first_state reader self_id [] = none
first_state reader self_id (m ∷ ms) = elim (reader.parse_note m.content Tag.state) [
  | none ↦ first_state reader self_id ms
  | some found ↦
      let older = first_state reader self_id ms in
      if m.sender_id == self_id || any (str_eq (lower (reader.strip found))) external_states
      then some found
      else older
]

unfoldable pub own_state : Reader → ℕ → List Message → Option String
unfolding first_state
own_state reader self_id messages = first_state reader self_id (reverse messages)
