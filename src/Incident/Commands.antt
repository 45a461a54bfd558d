-- ===== src/Incident/Commands.antt =====
-- The command line of cagent/src/cagent_api/incident.py, and the two tools of agent_runner.py over it.
use pj_clusterintent.Prelude.{
  String, Bool, Option, none, some, List, [], ◌∷◌, if◌then◌else◌, str_eq,
}
use pj_clusterintent.Prelude.Lines.{strip}
use pj_clusterintent.Prelude.Slices.{ℤ}
use pj_clusterintent.Incident.{
  Directory, Incident, Moment, Report, file_name, joined, write_incident,
}
use pj_clusterintent.Incident.Reading.{list_incidents, format_listing}

abbrev is_empty : String → Bool
is_empty text = str_eq (strip text) ""

abbrev pub blank_refusal : String
blank_refusal = "refused: the report text is empty; record the reporter's own words"

-- What the tool answers, and the directory afterwards. `folder` is the directory's own path.
abbrev pub recorded_answer : (folder stem : String) → String
recorded_answer folder stem = joined ("recorded as " ∷ folder ∷ "/" ∷ file_name stem ∷ [])

abbrev recorded_as : (folder : String) → Option (String × Directory) → Option (String × Directory)
recorded_as folder none = none
recorded_as folder (some (stem, after)) = some (recorded_answer folder stem, after)

unfoldable pub record_incident :
    (lower : String → String)
    → (folder : String) → Report
    → Moment
    → Directory
    → Option (String × Directory)
record_incident lower folder report now files =
    if is_empty report.description
    then some (blank_refusal, files)
    else recorded_as folder (write_incident lower report now files)

unfoldable pub list_recent_incidents : ℤ → Option Directory → String
unfolding list_incidents format_listing
list_recent_incidents limit files = format_listing (list_incidents limit files)

-- The parsed arguments of the command line; `none` is an option that was not given.
pub record Arguments : Type 0 where
  pub incident : Option String
  pub reporter : String
  pub source : String
  pub ref : String
  pub list : Option ℤ
  pub json : Bool

pub data Printed : Type 0 where
  records : List Incident → Printed
  text : String → Printed
  written : (path stem : String) → Printed
  usage_error : Printed

abbrev report_of : Arguments → String → Report
report_of args description = record {
  description = description;
  reporter = args.reporter;
  source = args.source;
  ref = args.ref;
}

abbrev print_written :
    (json : Bool) → (folder : String) → Option (String × Directory) → Option (Printed × Directory)
print_written json folder none = none
print_written json folder (some (stem, after)) =
    let path = joined (folder ∷ "/" ∷ file_name stem ∷ []) in
    some ((if json then Printed.written path stem else Printed.text path), after)

abbrev main_write :
    (lower : String → String)
    → (folder : String) → Arguments
    → Moment
    → Directory
    → Option String
    → Option (Printed × Directory)
main_write lower folder args now files none = some (Printed.usage_error, files)
main_write lower folder args now files (some description) =
    if is_empty description
    then some (Printed.usage_error, files)
    else print_written args.json folder
        (write_incident lower (report_of args description) now files)

-- What is printed, and the directory afterwards.
unfoldable pub main :
    (lower : String → String)
    → (folder : String) → Arguments
    → Moment
    → Directory
    → Option (Printed × Directory)
unfolding write_incident strip list_incidents format_listing
main lower folder args now files = elim args.list [
  | none ↦ main_write lower folder args now files args.incident
  | some limit ↦
      let found = list_incidents limit (some files) in
      some
        ((if args.json then Printed.records found else Printed.text (format_listing found)), files)
]
