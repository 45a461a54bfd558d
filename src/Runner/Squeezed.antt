-- ===== src/Runner/Squeezed.antt =====
-- What `_refuse_destroy` of agent_runner.py searches holds the pattern, when the command holds it in another
-- spelling.
use Prim.Native.Char.{Char, code}
use Prim.Native.String
use Prim.Native.String.append
use text.Mathlib.TextLemmas.{append_assoc}
use pj_clusterintent.Prelude.{
  String, Bool, true, false, leb, ◌≡◌, refl, sym, ap, ◌∙◌, inl, inr, All, Among, Bool-cases,
  if◌then◌else◌, not, List, [], ◌∷◌,
}
use pj_clusterintent.Prelude.Lines.{is_blank, starts_word, all_chars}
use pj_clusterintent.Prelude.Text.{lower, lower_char}
use pj_clusterintent.Runner.Destroy.{Unicode, squeeze, lowered, ascii, destroy_patterns}
use pj_clusterintent.Runner.Spelled.{
  Spelled, nothing, same, capital, gap, wider, lower_char_same, lower_char_blank,
  lower_char_capital, capital_is_dark,
}

abbrev owed_blank : Bool → String → String
owed_blank owed s = if owed then String.◌∷◌ " " s else s

squeeze_dark :
    (owed started : Bool) (c : Char) (s : String)
    → is_blank (code c) ≡ false
    → squeeze owed started (String.◌∷◌ c s) ≡ owed_blank owed (String.◌∷◌ c (squeeze false true s))
unfolding squeeze
squeeze_dark owed started c s h = rw (squeeze, h) refl

squeeze_blank :
    (owed started : Bool) (c : Char) (s : String)
    → is_blank (code c) ≡ true
    → squeeze owed started (String.◌∷◌ c s) ≡ squeeze started started s
unfolding squeeze
squeeze_blank owed started c s h = rw (squeeze, h) refl

abbrev IsSqueezed : String → String → Type 0
IsSqueezed p t =
    (b : String)
    → ((squeeze false true (String.◌++◌ (lower t) b) ≡ String.◌++◌ p (squeeze false true b))
        × (starts_word p ≡ true
            → (owed started : Bool)
            → squeeze owed started (String.◌++◌ (lower t) b)
              ≡ owed_blank owed (String.◌++◌ p (squeeze false true b)))
        × ((q : String)
            → p ≡ String.◌∷◌ " " q
            → squeeze true true (String.◌++◌ (lower t) b) ≡ String.◌++◌ p (squeeze false true b)))

space_is_blank : (q : String) → starts_word (String.◌∷◌ " " q) ≡ false
unfolding is_blank
space_is_blank q = refl

dark_step :
    (c d : Char) (p t : String)
    → lower_char d ≡ c
    → is_blank (code c) ≡ false
    → IsSqueezed p t
    → IsSqueezed (String.◌∷◌ c p) (String.◌∷◌ d t)
unfolding lower
dark_step c d p t small dark ih b = (at_dark false true, λ _. at_dark, λ q e. impossible q e)
  where
    at_dark :
        (owed started : Bool)
        → squeeze owed started (String.◌++◌ (lower (String.◌∷◌ d t)) b)
          ≡ owed_blank owed (String.◌++◌ (String.◌∷◌ c p) (squeeze false true b))
    at_dark owed started =
        ap (squeeze owed started) (
          append.cons (lower_char d) (lower t) b
          ∙ ap (λ x. String.◌∷◌ x (String.◌++◌ (lower t) b)) small)
        ∙ squeeze_dark owed started c (String.◌++◌ (lower t) b) dark
        ∙ ap (λ r. owed_blank owed (String.◌∷◌ c r)) (ih b).0
        ∙ ap (owed_blank owed) (sym (append.cons c p (squeeze false true b)))

    impossible :
        (q : String)
        → String.◌∷◌ c p ≡ String.◌∷◌ " " q
        → squeeze true true (String.◌++◌ (lower (String.◌∷◌ d t)) b)
          ≡ String.◌++◌ (String.◌∷◌ c p) (squeeze false true b)
    impossible q e = cc (ap starts_word e, space_is_blank q, ap not dark)

blank_step :
    (space d : Char) (p t : String)
    → space ≡ " "
    → is_blank (code d) ≡ true
    → ((b : String)
        → squeeze true true (String.◌++◌ (lower t) b)
          ≡ String.◌++◌ (String.◌∷◌ space p) (squeeze false true b))
    → IsSqueezed (String.◌∷◌ space p) (String.◌∷◌ d t)
unfolding lower
blank_step space d p t is_space blank owed b = (
  at_blank false,
  λ dark o s. cc (dark, ap (λ x. starts_word (String.◌∷◌ x p)) is_space, space_is_blank p),
  λ q e. at_blank true,
)
  where
    at_blank :
        (o : Bool)
        → squeeze o true (String.◌++◌ (lower (String.◌∷◌ d t)) b)
          ≡ String.◌++◌ (String.◌∷◌ space p) (squeeze false true b)
    at_blank o =
        ap (squeeze o true) (
          append.cons (lower_char d) (lower t) b
          ∙ ap (λ x. String.◌∷◌ x (String.◌++◌ (lower t) b)) (lower_char_blank d blank))
        ∙ squeeze_blank o true d (String.◌++◌ (lower t) b) blank
        ∙ owed b

Spelled-IsSqueezed : {p t : String} → Spelled p t → IsSqueezed p t
unfolding lower
Spelled-IsSqueezed nothing = λ b. (
  ap (squeeze false true) (append.nil b) ∙ sym (append.nil (squeeze false true b)),
  λ h. cc,
  λ q e. cc,
)
Spelled-IsSqueezed (same c {p} {t} dark no_capital h) =
    dark_step c c p t (lower_char_same c no_capital) dark (Spelled-IsSqueezed h)
Spelled-IsSqueezed (capital c d {p} {t} from to e h) =
    dark_step c d p t (lower_char_capital c d from to e) (capital_is_dark c from to)
      (Spelled-IsSqueezed h)
Spelled-IsSqueezed (gap space d {p} {t} is_space blank dark h) =
    blank_step space d p t is_space blank (λ b.
      (Spelled-IsSqueezed h b).1 dark true true
      ∙ ap (λ x. String.◌∷◌ x (String.◌++◌ p (squeeze false true b))) (sym is_space)
      ∙ sym (append.cons space p (squeeze false true b)))
Spelled-IsSqueezed (wider space d {p} {t} is_space blank h) =
    blank_step space d p t is_space blank
      (λ b. (Spelled-IsSqueezed h b).2 p (ap (λ x. String.◌∷◌ x p) is_space))

-- What stands before a text in the command does not change how the text is squeezed, but for one blank.
squeeze_behind :
    (owed started : Bool) (a : String)
    → (x : String) × (o : Bool) × (s : Bool) × ((rest : String)
        → squeeze owed started (String.◌++◌ a rest) ≡ String.◌++◌ x (squeeze o s rest))
squeeze_behind owed started String.[] = (
  "",
  owed,
  started,
  λ rest.
      ap (squeeze owed started) (append.nil rest) ∙ sym (append.nil (squeeze owed started rest)),
)
squeeze_behind owed started (String.◌∷◌ c a) = elim (Bool-cases (is_blank (code c))) [
  | inl blank ↦
      let (x, o, s, h) = squeeze_behind started started a in
      (
        x,
        o,
        s,
        λ rest.
            ap (squeeze owed started) (append.cons c a rest)
            ∙ squeeze_blank owed started c (String.◌++◌ a rest) blank
            ∙ h rest,
      )
  | inr dark ↦
      let (x, o, s, h) = squeeze_behind false true a in
      (
        owed_blank owed (String.◌∷◌ c x),
        o,
        s,
        λ rest.
            ap (squeeze owed started) (append.cons c a rest)
            ∙ squeeze_dark owed started c (String.◌++◌ a rest) dark
            ∙ ap (λ r. owed_blank owed (String.◌∷◌ c r)) (h rest)
            ∙ sym (owed_append owed c x (squeeze o s rest)),
      )
]
  where
    owed_append :
        (o : Bool) (d : Char) (x y : String)
        → String.◌++◌ (owed_blank o (String.◌∷◌ d x)) y
          ≡ owed_blank o (String.◌∷◌ d (String.◌++◌ x y))
    owed_append true d x y =
        append.cons " " (String.◌∷◌ d x) y ∙ ap (λ r. String.◌∷◌ " " r) (append.cons d x y)
    owed_append false d x y = append.cons d x y

join : (x r : String) → String.◌++◌ x (String.◌∷◌ " " r) ≡ String.◌++◌ (String.◌++◌ x " ") r
join x r =
    ap (String.◌++◌ x) (sym (append.cons " " "" r ∙ ap (λ v. String.◌∷◌ " " v) (append.nil r)))
    ∙ sym (append_assoc x " " r)

lower-append : (s t : String) → lower (String.◌++◌ s t) ≡ String.◌++◌ (lower s) (lower t)
unfolding lower
lower-append String.[] t = ap lower (append.nil t) ∙ sym (append.nil (lower t))
lower-append (String.◌∷◌ c s) t =
    ap lower (append.cons c s t)
    ∙ ap (λ r. String.◌∷◌ (lower_char c) r) (lower-append s t)
    ∙ sym (append.cons (lower_char c) (lower s) (lower t))

-- `str.lower` makes the capitals of ASCII text small, wherever the text stands.
abbrev pub LowersAscii : Unicode → Type 0
LowersAscii unicode =
    (a t b : String)
    → all_chars (λ c. leb c 127) t ≡ true
    → (a' : String) × (b' : String) × (unicode.lower (String.◌++◌ a (String.◌++◌ t b))
        ≡ String.◌++◌ a' (String.◌++◌ (lower t) b'))

pub lowered_holds :
    (unicode : Unicode) (pattern spelled a b : String)
    → LowersAscii unicode
    → starts_word pattern ≡ true
    → Spelled pattern spelled
    → all_chars (λ c. leb c 127) spelled ≡ true
    → (x : String) × (y : String) × (lowered unicode (String.◌++◌ a (String.◌++◌ spelled b))
        ≡ String.◌++◌ x (String.◌++◌ pattern y))
unfolding lowered
lowered_holds unicode pattern spelled a b lowers dark h plain =
    let (a', b', low) = lowers a spelled b plain in
    let (x, o, s, behind) = squeeze_behind false false a' in
    let all =
      ap (squeeze false false) low
      ∙ behind (String.◌++◌ (lower spelled) b')
      ∙ ap (String.◌++◌ x) ((Spelled-IsSqueezed h b').1 dark o s) in
    elim (Bool-cases o) [
      | inr none_owed ↦ (x, squeeze false true b', rw none_owed at all)
      | inl owing ↦ (
        String.◌++◌ x " ",
        squeeze false true b',
        (rw owing at all) ∙ join x (String.◌++◌ pattern (squeeze false true b')),
      )
    ]

pub ascii-LowersAscii : LowersAscii ascii
ascii-LowersAscii a t b plain = (
  lower a,
  lower b,
  lower-append a (String.◌++◌ t b) ∙ ap (String.◌++◌ (lower a)) (lower-append t b),
)

starts_dark :
    (ps : List String)
    → All (λ p. starts_word p ≡ true) ps
    → (p : String) → Among p ps
    → starts_word p ≡ true
starts_dark [] h p m = elim m [ ]
starts_dark (q ∷ ps) (dark, h) p (inl e) = ap starts_word e ∙ dark
starts_dark (q ∷ ps) (dark, h) p (inr m) = starts_dark ps h p m

pub patterns_start_dark : (p : String) → Among p destroy_patterns → starts_word p ≡ true
unfolding is_blank
patterns_start_dark = starts_dark destroy_patterns (
  refl,
  (
    refl,
    (
      refl,
      (refl, (refl, (refl, (refl, (refl, (refl, (refl, (refl, (refl, (refl, (refl, tt))))))))))),
    ),
  ),
)
