-- ===== src/Incident/Listing.antt =====
-- What a listing shows after a report, and what a blank report does.
use Prim.Native.Char.{Char, code}
use Prim.Native.Nat.{Ordering, ◌<◌, compare}
use Prim.Native.String
use Prim.Native.String.compare
use text.Mathlib.TextPositions.{compare_self}
use pj_clusterintent.Prelude.{
  ℕ, String, true, false, zero, suc, ◌≤◌, Option, none, some, List, [], ◌∷◌, ◌++◌, map, str_eq,
  is_some, length, take, ◌≡◌, refl, sym, ap, ◌∙◌, inl, inr, arith, Bool-cases, eq_iff, All, ◌⊎◌,
}
use pj_clusterintent.Prelude.Dict.{get, put}
use pj_clusterintent.Prelude.Lines.{strip}
use pj_clusterintent.Prelude.Slices.{ℤ}
use pj_clusterintent.Prelude.Sort.{sort, insert}
use pj_clusterintent.Incident.{Directory, Moment, Report, file_name, file_text, write_incident}
use pj_clusterintent.Incident.Commands.{record_incident, blank_refusal, recorded_answer}
use pj_clusterintent.Incident.Reading.{
  read_incident, read_file, without_md, is_later, reports, list_incidents,
}
use pj_clusterintent.Incident.FreeName.{
  write_incident_keeps_others, write_incident_puts, write_incident_total,
}
use pj_clusterintent.Incident.Frontmatter.{without_md-append}

-- A name that is new goes to the end.
put_last :
    (k text : String) (files : Directory)
    → get k files ≡ none
    → put k text files ≡ files ++ (k, text) ∷ []
unfolding put get
put_last k text [] h = refl
put_last k text ((j, old) ∷ files) h = elim (Bool-cases (str_eq j k)) [
  | inl e ↦ cc (rw e at h)
  | inr e ↦ rw e (ap (λ t. (j, old) ∷ t) (put_last k text files (rw e at h)))
]

reports-append :
    (files : Directory) (file : String × String)
    → is_some (without_md file.0) ≡ true
    → reports (files ++ file ∷ []) ≡ reports files ++ file ∷ []
unfolding reports
reports-append [] file h = rw h refl
reports-append (f ∷ files) file h = elim (Bool-cases (is_some (without_md f.0))) [
  | inl e ↦ rw e (ap (λ t. f ∷ t) (reports-append files file h))
  | inr e ↦ rw e (reports-append files file h)
]

-- The order of the alphabet, by code points: a text stands before those that go on from it.
pub data Precedes : String → String → Type 0 where
  shorter : (c : Char) (t : String) → Precedes String.[] (String.◌∷◌ c t)
  smaller :
      (c d : Char) (s t : String) → code c < code d → Precedes (String.◌∷◌ c s) (String.◌∷◌ d t)
  further : (c : Char) {s t : String} → Precedes s t → Precedes (String.◌∷◌ c s) (String.◌∷◌ c t)

gt_of_lt : (m n : ℕ) → m < n → compare n m ≡ Ordering.gt
gt_of_lt m n h = ground arith

compare-of_before : {s t : String} → Precedes s t → String.compare t s ≡ Ordering.gt
compare-of_before (shorter c t) = String.compare.cons-nil c t
compare-of_before (smaller c d s t h) =
    String.compare.cons-cons d c t s
    ∙ ap (λ o. String.then o (String.compare t s)) (gt_of_lt (code c) (code d) h)
compare-of_before (further c {s} {t} h) =
    String.compare.cons-cons c c t s
    ∙ ap (λ o. String.then o (String.compare t s)) (compare_self (code c))
    ∙ compare-of_before h

not_later : {s t : String} (x y : String) → Precedes s t → is_later (s, x) (t, y) ≡ false
not_later x y h = rw (compare-of_before h) refl

abbrev AllEarlier : String → Directory → Type 0
AllEarlier name = All (λ (f : String × String). Precedes f.0 name)

sort-append_newest :
    (files : Directory) (name text : String)
    → AllEarlier name files
    → sort is_later (files ++ (name, text) ∷ []) ≡ (name, text) ∷ sort is_later files
unfolding sort
sort-append_newest [] name text h = refl
sort-append_newest (f ∷ files) name text (h, hs) =
    rw (sort-append_newest files name text hs) (rw (insert, not_later f.1 text h) refl)

-- A report before whose file name the names of all other reports stand, code point by code point, is the
-- first that a listing shows; the rest of the listing is the one that was shown before.
pub list_incidents-write_incident :
    (lower : String → String) (report : Report) (now : Moment) (files : Directory) (stem : String)
    (after : Directory) (n : ℕ)
    → write_incident lower report now files ≡ some (stem, after)
    → AllEarlier (file_name stem) (reports files)
    → list_incidents (ℤ.pos (suc n)) (some after)
      ≡ read_incident (file_name stem) (file_text stem now report)
        ∷ list_incidents (ℤ.pos n) (some files)
unfolding list_incidents
list_incidents-write_incident lower report now files stem after n h newest =
    ap (λ found. map read_file (take (suc n) found))
      (ap (λ d. sort is_later (reports d)) (grown)
        ∙ ap (sort is_later) (reports-append files file md)
        ∙ sort-append_newest (reports files) (file_name stem) text newest)
  where
    text : String
    text = file_text stem now report

    file : String × String
    file = (file_name stem, text)

    md : is_some (without_md (file_name stem)) ≡ true
    md = rw (without_md-append stem) refl

    grown : after ≡ files ++ file ∷ []
    grown =
        sym (write_incident_puts lower report now files stem after h)
        ∙ put_last (file_name stem) text files
            (write_incident_keeps_others lower report now files stem after h).0

map-take_le : {A B : Type 0} (f : A → B) (n : ℕ) (xs : List A) → length (map f (take n xs)) ≤ n
map-take_le f zero xs = omega arith
map-take_le f (suc n) [] = omega arith
map-take_le f (suc n) (x ∷ xs) = omega (arith, map-take_le f n xs)

-- A listing shows at most as many incidents as it was asked for.
pub length-list_incidents :
    (n : ℕ) (files : Option Directory) → length (list_incidents (ℤ.pos n) files) ≤ n
unfolding list_incidents
length-list_incidents n none = omega arith
length-list_incidents n (some files) = map-take_le read_file n (sort is_later (reports files))

-- A report of blanks is refused and leaves no file; any other is recorded, in one new file that holds its
-- text.
pub record_incident_lem :
    (lower : String → String) (folder : String) (report : Report) (now : Moment) (files : Directory)
    → ((strip report.description ≡ "")
        × (record_incident lower folder report now files ≡ some (blank_refusal, files)))
      ⊎ ((stem : String) × (after : Directory) × (record_incident lower folder report now files
            ≡ some (recorded_answer folder stem, after))
          × (get (file_name stem) files ≡ none)
          × (get (file_name stem) after ≡ some (file_text stem now report)))
unfolding record_incident
record_incident_lem lower folder report now files =
    elim (Bool-cases (str_eq (strip report.description) "")) [
      | inl e ↦ inl ((eq_iff (strip report.description) "").0 e, rw e refl)
      | inr e ↦ inr (recorded e)
    ]
  where
    recorded :
        str_eq (strip report.description) "" ≡ false
        → (stem : String) × (after : Directory) × (record_incident lower folder report now files
            ≡ some (recorded_answer folder stem, after))
          × (get (file_name stem) files ≡ none)
          × (get (file_name stem) after ≡ some (file_text stem now report))
    recorded e =
        let (stem, after, h) = write_incident_total lower report now files in
        let (was_free, holds, _) =
          write_incident_keeps_others lower report now files stem after h in
        (stem, after, rw (e, h) refl, was_free, holds)
