-- ===== src/Incident/FreeName.antt =====
-- The search of `write_incident` for a free name ends, and what it finds is free.
use Prim.Native.String
use Prim.Native.String.append
use text.Mathlib.TextLemmas.{
  append_cancel_left, append_cancel_right, append-nil, cons-ne-nil, tail-eq_of_cons-eq,
}
use pj_clusterintent.Prelude.{
  ℕ, String, true, false, zero, suc, ◌<◌, ◌≤◌, Option, none, some, [], ◌∷◌, if◌then◌else◌, str_eq,
  is_some, length, ◌≡◌, ◌≢◌, refl, sym, ap, ◌∙◌, inl, inr, arith, Bool-cases, Option-cases, eq_iff,
  some_inj,
}
use pj_clusterintent.Prelude.Dict.{get, put, get-put_ne, get-put_self}
use pj_clusterintent.Prelude.Digits.{in_base, read_digits, read_digits-in_base}
use pj_clusterintent.Incident.{
  Directory, Moment, Report, file_name, file_text, exists, free_stem, incident_id, stored,
  write_incident,
}

abbrev numbered : String → ℕ → String
numbered id n = String.◌++◌ id (String.◌∷◌ "-" (in_base 10 n))

in_base_inj : (m n : ℕ) → in_base 10 m ≡ in_base 10 n → m ≡ n
in_base_inj m n e =
    sym (read_digits-in_base 10 (omega arith) (omega arith) m)
    ∙ ap (read_digits 10 0) e
    ∙ read_digits-in_base 10 (omega arith) (omega arith) n

numbered_inj : (id : String) (m n : ℕ) → numbered id m ≡ numbered id n → m ≡ n
numbered_inj id m n e = in_base_inj m n (
    tail-eq_of_cons-eq
      (append_cancel_left id (String.◌∷◌ "-" (in_base 10 m)) (String.◌∷◌ "-" (in_base 10 n)) e))

numbered_is_longer : (id : String) (n : ℕ) → numbered id n ≢ id
numbered_is_longer id n e =
    cons-ne-nil "-" (in_base 10 n)
      (append_cancel_left id (String.◌∷◌ "-" (in_base 10 n)) String.[] (e ∙ sym (append-nil id)))

file_name_inj : (s t : String) → file_name s ≡ file_name t → s ≡ t
file_name_inj s t e = append_cancel_right s t ".md" e

-- The directory without one name.
unfoldable erase : String → Directory → Directory
erase k [] = []
erase k ((j, text) ∷ d) = let rest = erase k d in if str_eq j k then rest else (j, text) ∷ rest

get-erase : (j k : String) (d : Directory) → j ≢ k → get j (erase k d) ≡ get j d
unfolding erase get
get-erase j k [] h = refl
get-erase j k ((i, text) ∷ d) h = ground (arith, eq_iff i k, eq_iff i j, get-erase j k d h)

length-erase_le : (k : String) (d : Directory) → length (erase k d) ≤ length d
unfolding erase
length-erase_le k [] = omega arith
length-erase_le k ((i, text) ∷ d) = ground (arith, length-erase_le k d)

length-erase : (k : String) (d : Directory) → exists d k ≡ true → length (erase k d) < length d
unfolding erase get
length-erase k [] h = cc
length-erase k ((i, text) ∷ d) h = ground (arith, length-erase k d, length-erase_le k d)

module _ (id : String) where
  -- A file that the search does not ask for makes no difference to it.
  free_stem-erase :
      (fuel : ℕ) (files : Directory) (stem : String) (suffix : ℕ) (k : String)
      → file_name stem ≢ k
      → ((j : ℕ) → suffix ≤ j → file_name (numbered id j) ≢ k)
      → free_stem fuel (erase k files) id stem suffix ≡ free_stem fuel files id stem suffix
  unfolding free_stem
  free_stem-erase zero files stem suffix k h hs = refl
  free_stem-erase (suc fuel) files stem suffix k h hs = rw (get-erase (file_name stem) k files h) (
      rw
        (free_stem-erase fuel files (numbered id suffix) (suc suffix) k (hs suffix (omega arith))
          (λ j le. hs j (omega arith)))
        refl)

  -- Of more names than there are files, one is free.
  free_stem_total :
      (fuel : ℕ) (files : Directory) (stem : String) (suffix : ℕ)
      → length files < fuel
      → ((j : ℕ) → suffix ≤ j → numbered id j ≢ stem)
      → is_some (free_stem fuel files id stem suffix) ≡ true
  unfolding free_stem
  free_stem_total zero files stem suffix h hs = absurd (omega arith)
  free_stem_total (suc fuel) files stem suffix h hs =
      elim (Bool-cases (exists files (file_name stem))) [
        | inl e ↦ rw e (
            ap is_some (
              sym (
                free_stem-erase fuel files (numbered id suffix) (suc suffix) (file_name stem)
                  (λ same. hs suffix (omega arith) (file_name_inj (numbered id suffix) stem same))
                  (λ j le same. hs j (omega arith) (file_name_inj (numbered id j) stem same))))
            ∙ free_stem_total fuel (erase (file_name stem) files) (numbered id suffix) (suc suffix)
                (omega (arith, length-erase (file_name stem) files e))
                (λ j le same. omega (arith, numbered_inj id j suffix same)))
        | inr e ↦ rw e refl
      ]

  free_stem_free :
      (fuel : ℕ) (files : Directory) (stem : String) (suffix : ℕ) (found : String)
      → free_stem fuel files id stem suffix ≡ some found
      → exists files (file_name found) ≡ false
  unfolding free_stem
  free_stem_free zero files stem suffix found h = cc
  free_stem_free (suc fuel) files stem suffix found h =
      elim (Bool-cases (exists files (file_name stem))) [
        | inl e ↦ free_stem_free fuel files (numbered id suffix) (suc suffix) found (rw e at h)
        | inr e ↦ rw (sym (some_inj (rw e at h))) e
      ]

stored_total :
    (report : Report) (now : Moment) (files : Directory) (found : Option String)
    → is_some found ≡ true
    → is_some (stored report now files found) ≡ true
stored_total report now files none h = cc
stored_total report now files (some stem) h = refl

pub stored_inv :
    (report : Report) (now : Moment) (files : Directory) (found : Option String) {stem : String}
    {after : Directory}
    → stored report now files found ≡ some (stem, after)
    → (found ≡ some stem) × (put (file_name stem) (file_text stem now report) files ≡ after)
stored_inv report now files none h = cc
stored_inv report now files (some found) h = (cc, cc)

is_none : (o : Option String) → is_some o ≡ false → o ≡ none
is_none none h = refl
is_none (some text) h = cc

module _ (lower : String → String) (report : Report) (now : Moment) (files : Directory) where
  -- A report is always recorded, however many files stand in the way of its name: the search for a free
  -- name ends.
  pub write_incident_ends : is_some (write_incident lower report now files) ≡ true
  unfolding write_incident
  write_incident_ends =
      let id = incident_id lower report now in
      stored_total report now files (free_stem (suc (length files)) files id id 2) (
        free_stem_total id (suc (length files)) files id 2 (omega arith)
          (λ j _. numbered_is_longer id j))

  pub write_incident_total :
      (stem : String) × (after : Directory) × (write_incident lower report now files
        ≡ some (stem, after))
  write_incident_total = elim (Option-cases (write_incident lower report now files)) [
    | inl e ↦ cc (rw e at write_incident_ends)
    | inr ((stem, after), e) ↦ (stem, after, e)
  ]

  -- Recording a report makes one file, of a name that no file had, with the report's text in it, and
  -- leaves every other file as it was.
  pub write_incident_keeps_others :
      (stem : String) (after : Directory)
      → write_incident lower report now files ≡ some (stem, after)
      → (get (file_name stem) files ≡ none)
        × (get (file_name stem) after ≡ some (file_text stem now report))
        × ((name : String) → file_name stem ≢ name → get name after ≡ get name files)
  unfolding write_incident
  write_incident_keeps_others stem after h =
      let id = incident_id lower report now in
      let (found, same) =
        stored_inv report now files (free_stem (suc (length files)) files id id 2) h in
      (
        is_none (get (file_name stem) files)
            (free_stem_free id (suc (length files)) files id 2 stem found),
        rw (sym same) (get-put_self (file_name stem) (file_text stem now report) files),
        λ name other.
            rw (sym same)
              (get-put_ne name (file_name stem) (file_text stem now report) files other),
      )

  pub write_incident_puts :
      (stem : String) (after : Directory)
      → write_incident lower report now files ≡ some (stem, after)
      → put (file_name stem) (file_text stem now report) files ≡ after
  unfolding write_incident
  write_incident_puts stem after h =
      let id = incident_id lower report now in
      (stored_inv report now files (free_stem (suc (length files)) files id id 2) h).1
