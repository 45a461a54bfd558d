-- ===== src/Incident/OneLine.antt =====
-- The values of a report's header, and the name of its file, are one line each.
use Prim.Native.Char.{Char, code}
use Prim.Native.String
use Prim.Native.String.append
use pj_clusterintent.Prelude.{
  ℕ, String, Bool, true, false, zero, suc, ◌<◌, ltb, some, List, [], ◌∷◌, str_eq, ◌≡◌, refl, inl,
  inr, ◌⊎◌, arith, Bool-cases, some_inj, All,
}
use pj_clusterintent.Prelude.Digits.{digit, in_base, code-digit, all_chars-in_base}
use mathlib.Core.Path.{subst}
use pj_clusterintent.Prelude.Lines.{is_blank, is_break, strip, split_words, join_with, all_chars}
use pj_clusterintent.Prelude.LineLaws.{all_chars-append, char-append}
use pj_clusterintent.Prelude.WordLaws.{
  is_dark, not_empty, IsOneLine-dark, IsOneLine, IsOneLine-join,
}
use pj_clusterintent.Incident.{
  Directory, Moment, exists, Report, file_name, free_stem, incident_id, escape, time_of, stamp_of,
  two_digits, joined,
}
use pj_clusterintent.Prelude.Dashes.{is_dashed_words}
use pj_clusterintent.Incident.Slug.{slugify, slugify-IsSlug, or_text, is_slug_char}

IsOneLine-or_text : (s : String) → (s ≡ "") ⊎ IsOneLine s → IsOneLine (or_text s "-")
unfolding is_break is_blank strip
IsOneLine-or_text s (inl e) = rw e (refl, refl)
IsOneLine-or_text s (inr h) = elim (Bool-cases (str_eq s "")) [
  | inl e ↦ rw e (refl, refl)
  | inr e ↦ rw e h
]

pub IsOneLine-escape : (value : String) → IsOneLine (escape value)
unfolding escape
IsOneLine-escape value =
    IsOneLine-or_text (join_with " " (split_words value)) (IsOneLine-join value)

digit-dark : (d : ℕ) → d < 16 → is_dark (code (digit d)) ≡ true
unfolding is_blank
digit-dark d h = ground (arith, code-digit d h)

in_base-dark : (n : ℕ) → all_chars is_dark (in_base 10 n) ≡ true
in_base-dark n = all_chars-in_base is_dark 10 (omega arith) (omega arith) digit-dark n

slug_dark :
    (after_dash : Bool) (s : String)
    → is_dashed_words is_slug_char after_dash s ≡ true
    → all_chars is_dark s ≡ true
unfolding is_blank
slug_dark after_dash String.[] h = refl
slug_dark after_dash (String.◌∷◌ c s) h = ground (arith, slug_dark true s, slug_dark false s)

two_digits-dark : (n : ℕ) → all_chars is_dark (two_digits n) ≡ true
unfolding two_digits
two_digits-dark n = elim (Bool-cases (ltb n 10)) [
  | inl e ↦
      rw e (all_chars-append is_dark "0" (in_base 10 n) (unfold is_blank in refl) (in_base-dark n))
  | inr e ↦ rw e (in_base-dark n)
]

joined_dark :
    (parts : List String)
    → All (λ s. all_chars is_dark s ≡ true) parts
    → all_chars is_dark (joined parts) ≡ true
joined_dark [] h = refl
joined_dark (s ∷ ss) (h, hs) = all_chars-append is_dark s (joined ss) h (joined_dark ss hs)

later_not_empty : (s t : String) → str_eq t "" ≡ false → str_eq (String.◌++◌ s t) "" ≡ false
later_not_empty String.[] t h = rw append.nil h
later_not_empty (String.◌∷◌ d s) t h = rw append.cons (not_empty d (String.◌++◌ s t))

append_not_empty :
    (s : String) (c : Char) (t : String) → str_eq (String.◌++◌ s (String.◌∷◌ c t)) "" ≡ false
append_not_empty s c t = later_not_empty s (String.◌∷◌ c t) (not_empty c t)

pub time_of-IsOneLine : (now : Moment) → IsOneLine (time_of now)
unfolding time_of is_blank
time_of-IsOneLine now =
    IsOneLine-dark (time_of now)
      (joined_dark
        (in_base 10 now.year
          ∷ "-"
          ∷ two_digits now.month
          ∷ "-"
          ∷ two_digits now.day
          ∷ "T"
          ∷ two_digits now.hour
          ∷ ":"
          ∷ two_digits now.minute
          ∷ ":"
          ∷ two_digits now.second
          ∷ "Z"
          ∷ [])
        (
          in_base-dark now.year,
          (
            refl,
            (
              two_digits-dark now.month,
              (
                refl,
                (
                  two_digits-dark now.day,
                  (
                    refl,
                    (
                      two_digits-dark now.hour,
                      (
                        refl,
                        (
                          two_digits-dark now.minute,
                          (refl, (two_digits-dark now.second, (refl, tt))),
                        ),
                      ),
                    ),
                  ),
                ),
              ),
            ),
          ),
        ))
      (later_not_empty (in_base 10 now.year) _ (rw char-append (not_empty "-" _)))

stamp_of-dark : (now : Moment) → all_chars is_dark (stamp_of now) ≡ true
unfolding stamp_of is_blank
stamp_of-dark now =
    joined_dark
      (in_base 10 now.year
        ∷ two_digits now.month
        ∷ two_digits now.day
        ∷ "T"
        ∷ two_digits now.hour
        ∷ two_digits now.minute
        ∷ two_digits now.second
        ∷ "Z"
        ∷ [])
      (
        in_base-dark now.year,
        (
          two_digits-dark now.month,
          (
            two_digits-dark now.day,
            (
              refl,
              (
                two_digits-dark now.hour,
                (two_digits-dark now.minute, (two_digits-dark now.second, (refl, tt))),
              ),
            ),
          ),
        ),
      )

abbrev pub IsName : String → Type 0
IsName s = (all_chars is_dark s ≡ true) × (str_eq s "" ≡ false)

pub incident_id-IsName :
    (lower : String → String) (report : Report) (now : Moment)
    → IsName (incident_id lower report now)
unfolding incident_id
incident_id-IsName lower report now = (
  all_chars-append is_dark (stamp_of now) (String.◌∷◌ "-" (slugify lower report.description))
      (stamp_of-dark now)
      (slug_dark false (String.◌∷◌ "-" (slugify lower report.description))
        (slugify-IsSlug lower report.description).0),
  append_not_empty (stamp_of now) "-" (slugify lower report.description),
)

numbered-IsName :
    (id : String) (n : ℕ) → IsName id → IsName (String.◌++◌ id (String.◌∷◌ "-" (in_base 10 n)))
unfolding is_blank
numbered-IsName id n (dark, _) = (
  all_chars-append is_dark id (String.◌∷◌ "-" (in_base 10 n)) dark (in_base-dark n),
  append_not_empty id "-" (in_base 10 n),
)

-- The search only adds digits.
pub free_stem-IsName :
    (id : String) (fuel : ℕ) (files : Directory) (stem : String) (suffix : ℕ) (found : String)
    → IsName id
    → IsName stem
    → free_stem fuel files id stem suffix ≡ some found
    → IsName found
unfolding free_stem
free_stem-IsName id zero files stem suffix found _ _ h = cc
free_stem-IsName id (suc fuel) files stem suffix found base named h =
    elim (Bool-cases (exists files (file_name stem))) [
      | inl e ↦
          free_stem-IsName id fuel files (String.◌++◌ id (String.◌∷◌ "-" (in_base 10 suffix)))
            (suc suffix) found base (numbered-IsName id suffix base) (rw e at h)
      | inr e ↦ subst IsName (some_inj (rw e at h)) named
    ]
