-- ===== src/Prelude/WordLaws.antt =====
-- What `" ".join(text.split())` gives: one line without blanks at its ends.
use Prim.Native.Char.{Char, code}
use Prim.Native.String.append
use Prim.Native.String.{String, [], ◌∷◌, ◌++◌}
use Prim.Native.Nat.{ℕ}
use mathlib.Core.Path.{◌≡◌, refl}
use mathlib.Core.Logic.{inl, inr, ◌⊎◌}
use mathlib.Core.Bool.{Bool, true, false, not}
use mathlib.Core.List.{List}
use native.Mathlib.Omega.{arith}
use text.Mathlib.Text.{◌==◌ as str_eq}
use text.Mathlib.TextEquality.{eq_iff}
use pj_clusterintent.Prelude.Tests.{Bool-cases}
use pj_clusterintent.Prelude.Lists.{All}
use pj_clusterintent.Prelude.Lines.{
  is_break, is_blank, rstrip, strip, split_words, join_with, all_chars, starts_word, onto_first,
}
use pj_clusterintent.Prelude.LineLaws.{is_plain, all_chars-append, lstrip-cons}

abbrev pub is_dark : ℕ → Bool
is_dark c = not (is_blank c)

abbrev pub ends_dark : String → Bool
ends_dark [] = false
ends_dark (c ∷ []) = is_dark (code c)
ends_dark (c ∷ d ∷ s) = ends_dark (d ∷ s)

-- A text on one line that `strip` leaves as it is.
abbrev pub IsOneLine : String → Type 0
IsOneLine s = (all_chars is_plain s ≡ true) × (strip s ≡ s)

pub not_empty : (c : Char) (s : String) → str_eq (c ∷ s) "" ≡ false
not_empty c s = elim (Bool-cases (str_eq (c ∷ s) "")) [
  | inl e ↦ cc ((eq_iff (c ∷ s) "").0 e)
  | inr e ↦ e
]

rstrip-cons : (c : Char) (s : String) → str_eq s "" ≡ false → rstrip s ≡ s → rstrip (c ∷ s) ≡ c ∷ s
unfolding rstrip
rstrip-cons c s h e = rw (e, h) (ground arith)

rstrip-ends_dark : (s : String) → ends_dark s ≡ true → rstrip s ≡ s
unfolding rstrip
rstrip-ends_dark [] h = refl
rstrip-ends_dark (c ∷ []) h = ground arith
rstrip-ends_dark (c ∷ d ∷ s) h = rstrip-cons c (d ∷ s) (not_empty d s) (rstrip-ends_dark (d ∷ s) h)

pub strip-dark : (s : String) → starts_word s ≡ true → ends_dark s ≡ true → strip s ≡ s
unfolding strip
strip-dark [] h k = cc
strip-dark (c ∷ s) h k = rw (lstrip-cons c s (ground arith)) (rstrip-ends_dark (c ∷ s) k)

abbrev IsWord : String → Type 0
IsWord w = (starts_word w ≡ true) × (all_chars is_dark w ≡ true)

pub ends_dark-cons : (c : Char) (s : String) → ends_dark s ≡ true → ends_dark (c ∷ s) ≡ true
ends_dark-cons c [] h = cc
ends_dark-cons c (d ∷ s) h = h

pub ends_dark-append : (s t : String) → ends_dark t ≡ true → ends_dark (s ++ t) ≡ true
ends_dark-append [] t h = rw append.nil h
ends_dark-append (c ∷ s) t h = rw append.cons (ends_dark-cons c (s ++ t) (ends_dark-append s t h))

IsWord-ends_dark : (w : String) → IsWord w → ends_dark w ≡ true
IsWord-ends_dark [] h = h.0
IsWord-ends_dark (c ∷ []) h = h.0
IsWord-ends_dark (c ∷ d ∷ s) h = IsWord-ends_dark (d ∷ s) (ground arith)

IsWord-onto_first :
    (c : Char) (ws : List String)
    → is_dark (code c) ≡ true
    → All IsWord ws
    → All IsWord (onto_first c ws)
IsWord-onto_first c List.[] h hs = ((h, ground arith), tt)
IsWord-onto_first c (List.◌∷◌ w ws) h (word, hs) = ((h, ground arith), hs)

IsWord-split_words : (s : String) → All IsWord (split_words s)
unfolding split_words
IsWord-split_words [] = tt
IsWord-split_words (c ∷ s) =
    let words = IsWord-split_words s in
    elim (Bool-cases (is_blank (code c))) [
      | inl e ↦ rw e words
      | inr e ↦ rw e (elim (Bool-cases (starts_word s)) [
        | inl f ↦ rw f (IsWord-onto_first c (split_words s) (ground arith) words)
        | inr f ↦ rw f ((ground arith, ground arith), words)
      ])
    ]

plain_of_dark : (c : ℕ) → is_dark c ≡ true → is_plain c ≡ true
unfolding is_blank is_break
plain_of_dark c h = ground arith

IsWord-plain : (w : String) → all_chars is_dark w ≡ true → all_chars is_plain w ≡ true
IsWord-plain [] h = refl
IsWord-plain (c ∷ w) h = ground (arith, plain_of_dark (code c), IsWord-plain w)

IsLine : String → Type 0
IsLine s = (all_chars is_plain s ≡ true) × (starts_word s ≡ true) × (ends_dark s ≡ true)

pub starts_word-append : (s t : String) → starts_word s ≡ true → starts_word (s ++ t) ≡ true
starts_word-append [] t h = cc
starts_word-append (c ∷ s) t h = rw append.cons h

IsLine-join :
    (w : String) (ws : List String)
    → IsWord w
    → All IsWord ws
    → IsLine (join_with " " (List.◌∷◌ w ws))
unfolding join_with IsLine
IsLine-join w List.[] h hs = (IsWord-plain w h.1, h.0, IsWord-ends_dark w h)
IsLine-join w (List.◌∷◌ v vs) h hs =
    let (plain, starts, ends) = IsLine-join v vs hs.0 hs.1 in
    (
      all_chars-append is_plain w (" " ++ join_with " " (List.◌∷◌ v vs)) (IsWord-plain w h.1) (
          all_chars-append is_plain " " (join_with " " (List.◌∷◌ v vs)) (unfold is_break in refl)
            plain),
      starts_word-append w (" " ++ join_with " " (List.◌∷◌ v vs)) h.0,
      ends_dark-append w (" " ++ join_with " " (List.◌∷◌ v vs))
          (ends_dark-append " " (join_with " " (List.◌∷◌ v vs)) ends),
    )

-- The words of any text, joined by single blanks: nothing at all, or one line without blanks at its ends.
pub IsOneLine-join :
    (s : String) → (join_with " " (split_words s) ≡ "") ⊎ IsOneLine (join_with " " (split_words s))
unfolding IsLine
IsOneLine-join s = go (split_words s) (IsWord-split_words s)
  where
    go : (ws : List String) → All IsWord ws → (join_with " " ws ≡ "") ⊎ IsOneLine (join_with " " ws)
    go List.[] _ = inl (unfold join_with in refl)
    go (List.◌∷◌ w ws) (h, hs) =
        let (plain, starts, ends) = IsLine-join w ws h hs in
        inr (plain, strip-dark (join_with " " (List.◌∷◌ w ws)) starts ends)

-- A text without blanks is one line.
pub IsOneLine-dark : (s : String) → all_chars is_dark s ≡ true → str_eq s "" ≡ false → IsOneLine s
IsOneLine-dark [] h k = cc
IsOneLine-dark (c ∷ s) h k = (
  IsWord-plain (c ∷ s) h,
  strip-dark (c ∷ s) (ground arith) (IsWord-ends_dark (c ∷ s) (ground arith, h)),
)
