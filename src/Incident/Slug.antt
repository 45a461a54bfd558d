-- ===== src/Incident/Slug.antt =====
-- `slugify` of cagent/src/cagent_api/incident.py: the part of a report's file name that is made of its
-- words. Python's `str.lower` is the argument `lower`, which also maps letters outside ASCII.
use Prim.Native.Char.{Char, code}
use mathlib.Core.Path.{subst}
use Prim.Native.String
use Prim.Native.String.count
use pj_clusterintent.Prelude.{
  ℕ, String, Bool, true, false, not, zero, suc, ◌≤◌, ◌==◌, ◌&&◌, ◌||◌, leb, ltb, Option, none, some,
  if◌then◌else◌, str_eq, ◌≡◌, refl, sym, ◌⊎◌, inl, inr, arith, Bool-cases, Option-cases, eq_iff,
  some_inj,
}
use pj_clusterintent.Prelude.Dashes.{
  sub_runs, lstrip_dashes, rstrip_dashes, first_chars, is_dashed_words, sub_runs-single_dashes,
  lstrip-single_dashes, rstrip-dashed_words,
}

abbrev pub slug_max_chars : ℕ
slug_max_chars = 48

-- `[a-z0-9]`
abbrev pub is_slug_char : ℕ → Bool
is_slug_char c = (leb 97 c && leb c 122) || (leb 48 c && leb c 57)

-- What stands before the last dash, `none` without one.
unfoldable pub before_last_dash : String → Option String
before_last_dash String.[] = none
before_last_dash (String.◌∷◌ c s) = elim (before_last_dash s) [
  | some before ↦ some (String.◌∷◌ c before)
  | none ↦ if code c == 45 then some "" else none
]

-- `text.rsplit("-", 1)[0]`
abbrev rsplit_first : String → String
rsplit_first s = elim (before_last_dash s) [ some before ↦ before | none ↦ s ]

-- `text or fallback`
abbrev pub or_text : String → String → String
or_text text fallback = if str_eq text "" then fallback else text

-- `re.sub(r"[^a-z0-9]+", "-", text.lower()).strip("-")`
unfoldable pub dashed : (lower : String → String) → String → String
unfolding sub_runs lstrip_dashes rstrip_dashes
dashed lower text = rstrip_dashes (lstrip_dashes (sub_runs is_slug_char false (lower text)))

unfoldable pub cut_slug : String → String
unfolding before_last_dash first_chars
cut_slug slug =
    if ltb slug_max_chars (String.count slug)
    then or_text (rsplit_first (first_chars slug_max_chars slug)) (first_chars slug_max_chars slug)
    else slug

unfoldable pub slugify : (lower : String → String) → String → String
unfolding dashed cut_slug
slugify lower text = or_text (cut_slug (dashed lower text)) "incident"

-- Words of small letters and digits, joined by single dashes.
abbrev pub IsSlug : String → Type 0
IsSlug s = (is_dashed_words is_slug_char true s ≡ true) × (String.count s ≤ slug_max_chars)

count-first_chars : (n : ℕ) (s : String) → String.count (first_chars n s) ≤ n
unfolding first_chars
count-first_chars zero s = omega arith
count-first_chars (suc n) String.[] = omega arith
count-first_chars (suc n) (String.◌∷◌ c s) =
    rw (count.cons, first_chars) (omega (arith, count-first_chars n s))

module _ (c : Char) (s : String) where
  last_dash_is_first :
      (before : String)
      → before_last_dash s ≡ none
      → before_last_dash (String.◌∷◌ c s) ≡ some before
      → ((code c == 45) ≡ true) × (before ≡ "")
  unfolding before_last_dash
  last_dash_is_first before e h = elim (Bool-cases (code c == 45)) [
    | inl d ↦ (d, sym (some_inj (rw (e, d) at h)))
    | inr d ↦ cc (rw (e, d) at h)
  ]

  last_dash_is_later :
      (rest before : String)
      → before_last_dash s ≡ some rest
      → before_last_dash (String.◌∷◌ c s) ≡ some before
      → before ≡ String.◌∷◌ c rest
  unfolding before_last_dash
  last_dash_is_later rest before e h = sym (some_inj (rw e at h))

  no_last_dash :
      before_last_dash (String.◌∷◌ c s) ≡ none
      → (before_last_dash s ≡ none) × ((code c == 45) ≡ false)
  unfolding before_last_dash
  no_last_dash h = elim (Option-cases (before_last_dash s)) [
    | inl e ↦ (e, ground (arith, rw e at h))
    | inr (rest, e) ↦ cc (rw e at h)
  ]

count-before_last_dash :
    (s before : String) → before_last_dash s ≡ some before → String.count before ≤ String.count s
unfolding before_last_dash
count-before_last_dash String.[] before h = cc
count-before_last_dash (String.◌∷◌ c s) before h = elim (Option-cases (before_last_dash s)) [
  | inl e ↦ rw (last_dash_is_first c s before e h).1 (omega arith)
  | inr (rest, e) ↦
      rw (last_dash_is_later c s rest before e h, count.cons, count.cons)
        (omega (arith, count-before_last_dash s rest e))
]

-- A cut at the last dash leaves whole words, and without one nothing but letters and digits is left.
first_chars-dashed_words :
    (after_dash : Bool) (n : ℕ) (s : String)
    → (not after_dash || ltb 0 n) ≡ true
    → is_dashed_words is_slug_char after_dash s ≡ true
    → before_last_dash (first_chars n s) ≡ none
    → is_dashed_words is_slug_char after_dash (first_chars n s) ≡ true
unfolding first_chars before_last_dash
first_chars-dashed_words after_dash zero s some_chars h k = ground arith
first_chars-dashed_words after_dash (suc n) String.[] some_chars h k = h
first_chars-dashed_words after_dash (suc n) (String.◌∷◌ c s) some_chars h k = ground (
  arith,
  no_last_dash c (first_chars n s) k,
  first_chars-dashed_words false n s,
  first_chars-dashed_words true n s,
)

before_last_dash-dashed_words :
    (after_dash : Bool) (n : ℕ) (s before : String)
    → is_dashed_words is_slug_char after_dash s ≡ true
    → before_last_dash (first_chars n s) ≡ some before
    → is_dashed_words is_slug_char after_dash before ≡ true
unfolding first_chars before_last_dash
before_last_dash-dashed_words after_dash zero s before h k = cc
before_last_dash-dashed_words after_dash (suc n) String.[] before h k = cc
before_last_dash-dashed_words after_dash (suc n) (String.◌∷◌ c s) before h k =
    elim (Option-cases (before_last_dash (first_chars n s))) [
      | inl e ↦
          rw (last_dash_is_first c (first_chars n s) before e k).1
            (ground (arith, (last_dash_is_first c (first_chars n s) before e k).0))
      | inr (rest, e) ↦ rw (last_dash_is_later c (first_chars n s) rest before e k) (
          ground (
            arith,
            before_last_dash-dashed_words false n s rest,
            before_last_dash-dashed_words true n s rest,
          ))
    ]

IsSlug-or_text : (text fallback : String) → IsSlug text → IsSlug (or_text text fallback)
IsSlug-or_text text fallback h = elim (Bool-cases (str_eq text "")) [
  | inl e ↦ absurd (no_empty ((eq_iff text "").0 e))
  | inr e ↦ rw e h
]
  where
    no_empty : text ≡ "" → ⊥
    no_empty e = ground (arith, subst (λ t. is_dashed_words is_slug_char true t ≡ true) e h.0)

rsplit_first-IsSlug :
    (slug : String)
    → is_dashed_words is_slug_char true slug ≡ true
    → IsSlug (rsplit_first (first_chars slug_max_chars slug))
unfolding before_last_dash first_chars
rsplit_first-IsSlug slug h =
    elim (Option-cases (before_last_dash (first_chars slug_max_chars slug))) [
      | inl e ↦ rw e (first_chars-dashed_words true slug_max_chars slug (ground arith) h e, short)
      | inr (before, e) ↦ rw e (
        before_last_dash-dashed_words true slug_max_chars slug before h e,
        omega (arith, short, count-before_last_dash (first_chars slug_max_chars slug) before e),
      )
    ]
  where
    short : String.count (first_chars slug_max_chars slug) ≤ slug_max_chars
    short = count-first_chars slug_max_chars slug

cut_slug-IsSlug :
    (slug : String) → is_dashed_words is_slug_char true slug ≡ true → IsSlug (cut_slug slug)
unfolding cut_slug
cut_slug-IsSlug slug h = elim (Bool-cases (ltb slug_max_chars (String.count slug))) [
  | inl e ↦ rw e (
      IsSlug-or_text (rsplit_first (first_chars slug_max_chars slug))
        (first_chars slug_max_chars slug) (rsplit_first-IsSlug slug h))
  | inr e ↦ rw e (h, ground arith)
]

dashed-dashed_words :
    (lower : String → String) (text : String)
    → (dashed lower text ≡ "") ⊎ (is_dashed_words is_slug_char true (dashed lower text) ≡ true)
unfolding dashed
dashed-dashed_words lower text =
    rstrip-dashed_words is_slug_char true (lstrip_dashes (sub_runs is_slug_char false (lower text)))
      (lstrip-single_dashes is_slug_char false (sub_runs is_slug_char false (lower text))
        (sub_runs-single_dashes is_slug_char false (lower text) refl))

-- Whatever the report says, and however long it is, its slug is words of small ASCII letters and digits
-- joined by single dashes, has at least one word, and has at most 48 characters.
pub slugify-IsSlug : (lower : String → String) (text : String) → IsSlug (slugify lower text)
unfolding slugify
slugify-IsSlug lower text = elim (dashed-dashed_words lower text) [
  | inl e ↦ rw e (unfold cut_slug in (refl, omega arith))
  | inr words ↦
      IsSlug-or_text (cut_slug (dashed lower text)) "incident"
        (cut_slug-IsSlug (dashed lower text) words)
]

test_slugify :
    slugify (λ s. s) "  you said: agpc was up!! and the operator was not shown a thing of this"
    ≡ "you-said-agpc-was-up-and-the-operator-was-not"
unfolding slugify
test_slugify = refl
