-- ===== src/ChangeRecord/NotesLaws.antt =====
-- Whose notes count, and which of them.
use mathlib.Core.List.{reverse-append, reverse-cons}
use pj_clusterintent.Prelude.{
  ℕ, String, ◌==◌, Option, some, List, [], ◌∷◌, ◌++◌, reverse, ◌≡◌, ◌≢◌, refl, arith, Option-cases,
  Bool-cases, inl, inr, All, All-append,
}
use pj_clusterintent.ChangeRecord.Notes.{
  Tag, Message, Reader, own_note, earliest, first_own, newest, own_change, own_record, parse_id,
}

module _ {A : Type 0} (self_id : ℕ) (parse : String → Option A) where
  earliest-append :
      (older newer : List Message) (found : ℕ × A)
      → earliest self_id parse older ≡ some found
      → earliest self_id parse (older ++ newer) ≡ some found
  unfolding earliest
  earliest-append [] newer found h = cc
  earliest-append (m ∷ older) newer found h = elim (Option-cases (own_note self_id parse m)) [
    | inl e ↦ rw (e, earliest) (earliest-append older newer found (rw (e, earliest) at h))
    | inr (x, e) ↦ rw (e, earliest) (rw (e, earliest) at h)
  ]

  first_own-foreign :
      (others rest : List Message)
      → All (λ m. m.sender_id ≢ self_id) others
      → first_own self_id parse (others ++ rest) ≡ first_own self_id parse rest
  unfolding first_own
  first_own-foreign [] rest h = refl
  first_own-foreign (m ∷ others) rest (h, hs) = elim (Bool-cases (m.sender_id == self_id)) [
    | inl e ↦ elim (h (ground arith)) [ ]
    | inr e ↦ rw (first_own, e) (first_own-foreign others rest hs)
  ]

All-reverse : (P : Message → Type 0) (ms : List Message) → All P ms → All P (reverse ms)
All-reverse P [] h = tt
All-reverse P (m ∷ ms) (h, hs) =
    rw reverse-cons (All-append P (reverse ms) (m ∷ []) (All-reverse P ms hs) (h, tt))

-- The change that a conversation is stays the one it first was, whatever is posted later, by anybody.
pub own_change_is_fixed :
    (reader : Reader) (self_id : ℕ) (older newer : List Message) (found : ℕ × String)
    → own_change reader self_id older ≡ some found
    → own_change reader self_id (older ++ newer) ≡ some found
unfolding own_change
own_change_is_fixed reader self_id older newer found h =
    earliest-append self_id (λ c. reader.parse_note c Tag.change) older newer found h

-- Posts of others never change which record a conversation was given.
own_record_ignores_others :
    (reader : Reader) (self_id : ℕ) (older newer : List Message)
    → All (λ m. m.sender_id ≢ self_id) newer
    → own_record reader self_id (older ++ newer) ≡ own_record reader self_id older
unfolding own_record newest
own_record_ignores_others reader self_id older newer h = rw reverse-append (
    first_own-foreign self_id (parse_id reader Tag.changerec) (reverse newer) (reverse older)
      (All-reverse (λ m. m.sender_id ≢ self_id) newer h))
