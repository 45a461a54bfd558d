-- ===== src/Examples/IncidentRuns.antt =====
-- Reports, recorded in a directory where the first name is taken.
use Prim.Native.String
use Prim.Native.String.append
use pj_clusterintent.Prelude.{
  arith, true, false, String, ◌≡◌, refl, ◌≢◌, [], ◌∷◌, some, none, is_some,
}
use pj_clusterintent.Prelude.Dict.{get, put}
use pj_clusterintent.Prelude.Digits.{in_base}
use pj_clusterintent.Prelude.Lines.{is_blank, is_break, strip, split_words, join_with}
use pj_clusterintent.Prelude.Slices.{ℤ}
use pj_clusterintent.Prelude.Text.{lower}
use pj_clusterintent.Incident.{
  Directory, free_stem, Moment, Report, escape, file_name, file_text, incident_id, stamp_of,
  time_of, two_digits, write_incident,
}
use pj_clusterintent.Incident.FreeName.{write_incident_ends, write_incident_keeps_others}
use pj_clusterintent.Incident.Listing.{Precedes, smaller, further, list_incidents-write_incident}
use pj_clusterintent.Incident.Reading.{is_later, list_incidents, read_incident, reports}
use pj_clusterintent.Incident.RoundTrip.{write_incident-read}
use pj_clusterintent.Incident.Slug.{IsSlug, slugify, slugify-IsSlug}

abbrev noon : Moment
noon = record { year = 2026; month = 1; day = 2; hour = 12; minute = 0; second = 5 }

abbrev report : Report
report = record {
  description = "agpc is DOWN\nyou said it was up";
  reporter = "zulip:8  Ann\n";
  source = "zulip-dm";
  ref = "";
}

abbrev taken : Directory
taken = ("20260102T120005Z-agpc-is-down-you-said-it-was-up.md", "old\n") ∷ []

abbrev second_stem : String
second_stem = "20260102T120005Z-agpc-is-down-you-said-it-was-up-2"

abbrev with_second : Directory
with_second = put (file_name second_stem) (file_text second_stem noon report) taken

recorded : write_incident lower report noon taken ≡ some (second_stem, with_second)
unfolding write_incident incident_id stamp_of two_digits slugify lower in_base free_stem get
recorded = refl

write_incident_ends_example : is_some (write_incident lower report noon taken) ≡ true
write_incident_ends_example = write_incident_ends lower report noon taken

write_incident_keeps_others_example :
    (get (file_name second_stem) taken ≡ none)
    × (get (file_name second_stem) with_second ≡ some (file_text second_stem noon report))
    × ((name : String) → file_name second_stem ≢ name → get name with_second ≡ get name taken)
write_incident_keeps_others_example =
    write_incident_keeps_others lower report noon taken second_stem with_second recorded

write_incident-read_example :
    (text : String) × (get (file_name second_stem) with_second ≡ some text)
    × (read_incident (file_name second_stem) text ≡ record {
      id = second_stem;
      time = time_of noon;
      reporter = escape "zulip:8  Ann\n";
      source = escape "zulip-dm";
      ref = escape "";
      body = strip "agpc is DOWN\nyou said it was up";
    })
write_incident-read_example =
    write_incident-read lower report noon taken second_stem with_second (unfold is_break in refl)
      recorded

slugify-IsSlug_example : IsSlug (slugify lower "you said: agpc was up!!")
slugify-IsSlug_example = slugify-IsSlug lower "you said: agpc was up!!"

abbrev a_second_later : Moment
a_second_later = record { year = 2026; month = 1; day = 2; hour = 12; minute = 0; second = 6 }

abbrev later_stem : String
later_stem = "20260102T120006Z-agpc-is-down-you-said-it-was-up"

abbrev with_later : Directory
with_later = put (file_name later_stem) (file_text later_stem a_second_later report) taken

recorded_later : write_incident lower report a_second_later taken ≡ some (later_stem, with_later)
unfolding write_incident incident_id stamp_of two_digits slugify lower in_base free_stem get
recorded_later = refl

behind_prefix :
    (p : String) {s t : String} → Precedes s t → Precedes (String.◌++◌ p s) (String.◌++◌ p t)
behind_prefix String.[] {s} {t} h = rw (append.nil s) (rw (append.nil t) h)
behind_prefix (String.◌∷◌ c p) {s} {t} h =
    rw (append.cons c p s) (rw (append.cons c p t) (further c (behind_prefix p h)))

stands_before :
    Precedes "20260102T120005Z-agpc-is-down-you-said-it-was-up.md" (file_name later_stem)
stands_before = behind_prefix "20260102T12000" (
    smaller "5" "6" "Z-agpc-is-down-you-said-it-was-up.md" "Z-agpc-is-down-you-said-it-was-up.md"
      (omega arith))

list_incidents-write_incident_example :
    list_incidents (ℤ.pos 2) (some with_later)
    ≡ read_incident (file_name later_stem) (file_text later_stem a_second_later report)
      ∷ list_incidents (ℤ.pos 1) (some taken)
list_incidents-write_incident_example =
    list_incidents-write_incident lower report a_second_later taken later_stem with_later 1
      recorded_later (unfold reports in (stands_before, tt))

-- Two reports of one second: the later one, whose name ends in "-2", stands behind the earlier one.
same_second :
    is_later (file_name second_stem, "") ("20260102T120005Z-agpc-is-down-you-said-it-was-up.md", "")
    ≡ false
same_second = refl

read_back : escape "zulip:8  Ann\n" ≡ "zulip:8 Ann"
unfolding escape split_words join_with is_blank
read_back = refl
