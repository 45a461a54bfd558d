-- ===== src/Topics/Laws.antt =====
-- The two handoffs, and what a posted answer means.
use pj_clusterintent.Prelude.{
  ℕ, String, true, false, Option, none, some, List, ◌∷◌, str_eq, eq_refl, ◌&&◌, ◌≡◌, ◌≢◌, refl, sym,
  ap, ◌∙◌, inl, inr, arith, Bool-cases, Option-cases, some_inj,
}
use mathlib.Core.Path.{subst}
use pj_clusterintent.Prelude.Result.{Result, ok, err}
use pj_clusterintent.Topics.{
  TopicError, PostMeta, Intents, ReplySplit, meaning, addressed, unclassified, is_word, is_unset,
}

abbrev pub with_section : String → Result TopicError (List String) → Result TopicError (List String)
with_section section (ok sections) = ok (section ∷ sections)
with_section section (err e) = err e

abbrev IsCaught : Result TopicError String → Type 0
IsCaught (ok section) = Unit
IsCaught (err (TopicError.record_error e)) = Unit
IsCaught (err (TopicError.zulip_error e)) = Unit
IsCaught (err _) = ⊥

some_to : (to : Option ℕ) → is_unset to ≡ false → (id : ℕ) × (to ≡ some id)
some_to none h = cc
some_to (some id) h = (id, refl)

unclassified_is_no_request :
    (re : Option String) (meta : PostMeta) (word : String)
    → unclassified re ≡ some meta
    → meta.intent ≡ some word
    → ⊥
unclassified_is_no_request none meta word h k = cc
unclassified_is_no_request (some re) meta word h k = elim (Bool-cases (str_eq re "")) [
  | inl e ↦ cc (rw e at h)
  | inr e ↦ cc (ap (λ (m : PostMeta). m.intent) (some_inj (rw e at h)) ∙ k)
]

addressed_to :
    (requester : Option (Option ℕ)) (processed_up_to : ℕ) (draft meta : PostMeta) (word : String)
    → addressed requester processed_up_to draft ≡ some meta
    → meta.intent ≡ some word
    → (id : ℕ) × (meta.to ≡ some id)
addressed_to (some (some id)) processed_up_to draft meta word h k =
    (id, ap (λ (m : PostMeta). m.to) (sym (some_inj h)))
addressed_to (some none) processed_up_to draft meta word h k =
    absurd (unclassified_is_no_request draft.re meta word h k)
addressed_to none processed_up_to draft meta word h k =
    absurd (unclassified_is_no_request draft.re meta word h k)

unaddressed_has_to :
    (draft : PostMeta) (word : String)
    → (is_word word draft.intent && is_unset draft.to) ≡ false
    → draft.intent ≡ some word
    → (id : ℕ) × (draft.to ≡ some id)
unaddressed_has_to draft word h k = some_to draft.to (ground (arith, word_is_word))
  where
    word_is_word : is_word word draft.intent ≡ true
    word_is_word = rw k (eq_refl word)

-- A post that is a request to answer is always addressed to someone.
meaning_addresses_requests :
    (intents : Intents) (requester : Option (Option ℕ)) (processed_up_to : ℕ) (split : ReplySplit)
    (meta : PostMeta)
    → intents.report ≢ intents.response_request
    → meaning intents requester processed_up_to split ≡ some meta
    → meta.intent ≡ some intents.response_request
    → (id : ℕ) × (meta.to ≡ some id)
unfolding meaning
meaning_addresses_requests intents requester processed_up_to split meta differ h request =
    elim (Bool-cases split.is_ok) [
      | inr failed ↦ absurd (
          differ (some_inj (ap (λ (m : PostMeta). m.intent) (some_inj (rw failed at h)) ∙ request)))
      | inl fine ↦ elim (Option-cases split.meta) [
        | inl missing ↦ cc (rw (fine, missing) at h)
        | inr (draft, drafted) ↦
            elim (Bool-cases (is_word intents.response_request draft.intent && is_unset draft.to)) [
              | inl open_request ↦
                  addressed_to requester processed_up_to draft meta intents.response_request
                    (rw (fine, drafted, open_request) at h) request
              | inr closed ↦
                  subst (λ (m : PostMeta). (id : ℕ) × (m.to ≡ some id))
                    (some_inj (rw (fine, drafted, closed) at h))
                    (unaddressed_has_to draft intents.response_request closed (
                      ap (λ (m : PostMeta). m.intent) (some_inj (rw (fine, drafted, closed) at h))
                      ∙ request))
            ]
      ]
    ]
