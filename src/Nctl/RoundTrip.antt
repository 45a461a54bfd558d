-- ===== src/Nctl/RoundTrip.antt =====
-- `shlex.split` undoes `shlex.join`.
use Prim.Native.Char.{Char, code}
use Prim.Native.String
use Prim.Native.String.append
use text.Mathlib.TextEquality.{Char-path}
use text.Mathlib.TextLemmas.{append-nil, append_assoc}
use pj_clusterintent.Prelude.{
  ℕ, String, true, false, some, List, [], ◌∷◌, ◌==◌, ◌≡◌, refl, sym, ap, ◌∙◌, arith, Bool-cases,
  inl, inr,
}
use pj_clusterintent.Nctl.Shlex.{
  Mode, turn, push, emit, split_from, split, is_safe, all_safe, is_space, quote_rest, quote, join,
}

push-append :
    (t : String) (c : Char) (w : String) → String.◌++◌ (push t c) w ≡ String.◌++◌ t (String.◌∷◌ c w)
push-append t c w =
    append_assoc t (String.◌∷◌ c "") w
    ∙ ap (λ v. String.◌++◌ t v) (append.cons c "" w ∙ ap (λ v. String.◌∷◌ c v) (append.nil w))

safe_lem :
    (c : ℕ)
    → is_safe c ≡ true
    → (is_space c ≡ false) × (c == 92 ≡ false) × (c == 39 ≡ false) × (c == 34 ≡ false)
safe_lem c h = ground arith

-- Safe text is read as it stands.
split_from_word :
    (t w s : String)
    → all_safe w ≡ true
    → split_from Mode.word t (String.◌++◌ w s) ≡ split_from Mode.word (String.◌++◌ t w) s
unfolding split_from turn
split_from_word t String.[] s h = rw (append.nil, append-nil)
split_from_word t (String.◌∷◌ c w) s h =
    let q = safe_lem (code c) (ground arith) in
    rw append.cons (
      rw (q.0, q.1, q.2, q.3)
        (split_from_word (push t c) w s (ground arith)
          ∙ ap (λ v. split_from Mode.word v s) (push-append t c w)))

a_quote :
    (t x : String)
    → split_from Mode.single t (String.◌++◌ "'\"'\"'" x) ≡ split_from Mode.single (push t "'") x
unfolding split_from turn
a_quote t x =
    rw
      (
        append.cons "'" "\"'\"'" x,
        append.cons "\"" "'\"'" x,
        append.cons "'" "\"'" x,
        append.cons "\"" "'" x,
        append.cons "'" "" x,
        append.nil,
      )
      refl

-- Quoted text is read as what was quoted.
split_from_single :
    (t w s : String)
    → split_from Mode.single t (String.◌++◌ (quote_rest w) s)
      ≡ split_from Mode.word (String.◌++◌ t w) s
unfolding split_from quote_rest turn
split_from_single t String.[] s = rw (append.cons "'" "" s, append.nil, append-nil) refl
split_from_single t (String.◌∷◌ c w) s = elim (Bool-cases (code c == 39)) [
  | inl e ↦
      rw (e, append_assoc, Char-path c "'" (ground arith))
        (a_quote t (String.◌++◌ (quote_rest w) s)
          ∙ split_from_single (push t "'") w s
          ∙ ap (λ v. split_from Mode.word v s) (push-append t "'" w))
  | inr e ↦
      rw (e, append.cons, e)
        (split_from_single (push t c) w s ∙ ap (λ v. split_from Mode.word v s) (push-append t c w))
]

-- A quoted word is read as the word.
split_from-quote :
    (w s : String) → split_from Mode.space "" (String.◌++◌ (quote w) s) ≡ split_from Mode.word w s
unfolding split_from quote turn
split_from-quote String.[] s = rw (append.cons "'" "'" s, append.cons "'" "" s, append.nil) refl
split_from-quote (String.◌∷◌ c w) s = elim (Bool-cases (all_safe (String.◌∷◌ c w))) [
  | inl e ↦
      let q = safe_lem (code c) (ground arith) in
      rw (e, append.cons, q.0, q.1, q.2, q.3)
        (split_from_word (push "" c) w s (ground arith) ∙ rw (push-append "" c w, append.nil))
  | inr e ↦
      rw (e, append.cons "'" (quote_rest (String.◌∷◌ c w)) s)
        (split_from_single "" (String.◌∷◌ c w) s ∙ rw append.nil)
]

-- Joining words with `shlex.join` and splitting the text again gives the words.
pub split-join : (ws : List String) → split (join ws) ≡ some ws
unfolding split join
split-join [] = refl
split-join (w ∷ []) =
    ap (λ v. split_from Mode.space "" v) (sym (append-nil (quote w))) ∙ split_from-quote w ""
split-join (w ∷ v ∷ ws) =
    rw (split_from-quote w (String.◌∷◌ " " (join (v ∷ ws)))) (ap (emit w) (split-join (v ∷ ws)))
