-- ===== src/Ledger/Console.antt =====
-- cagent/src/cagent_api/ledger_cli.py: the commands of `cagent-ledger`. `shown` prints a time.
use Prim.Native.String
use pj_clusterintent.Prelude.{ℕ, String, Option, none, some, List, [], ◌∷◌, ◌++◌}
use pj_clusterintent.Prelude.Result.{Result, ok, err}
use pj_clusterintent.Ledger
use pj_clusterintent.Ledger.{Ledger, LedgerError, is_active}
use pj_clusterintent.Ledger.Log.{LedgerEntry, LedgerState}
use pj_clusterintent.Incident.{joined}

-- What a command prints; `exits` is a SystemExit with its text, and `fails` an exception of another kind.
pub data Printed : Type 0 where
  lines : List String → Printed
  exits : String → Printed
  fails : Printed

abbrev state_word : LedgerState → String
state_word LedgerState.active = "active"
state_word LedgerState.revoked = "revoked"

abbrev revoked_line : (shown : ℕ → String) → Option ℕ → List String
revoked_line shown none = []
revoked_line shown (some at) = String.◌++◌ "  revoked_at=" (shown at) ∷ []

unfoldable pub print_entry : (shown : ℕ → String) → LedgerEntry → List String
print_entry shown entry =
    String.◌++◌ "serial=" entry.serial
    ∷ String.◌++◌ "  uuid=" entry.uuid
    ∷ String.◌++◌ "  state=" (state_word entry.state)
    ∷ String.◌++◌ "  fingerprint=" entry.fingerprint
    ∷ String.◌++◌ "  not_after=" entry.not_after
    ∷ revoked_line shown entry.revoked_at

unfoldable pub print_entries : (shown : ℕ → String) → List LedgerEntry → List String
unfolding print_entry
print_entries shown [] = []
print_entries shown (e ∷ es) = print_entry shown e ++ print_entries shown es

abbrev or_empty_ledger : List String → List String
or_empty_ledger [] = "(ledger is empty)" ∷ []
or_empty_ledger (l ∷ ls) = l ∷ ls

unfoldable pub cmd_list : (shown : ℕ → String) → Ledger → Printed
unfolding print_entries
cmd_list shown ledger = Printed.lines (or_empty_ledger (print_entries shown (Ledger.list ledger)))

unfoldable pub cmd_show : (shown : ℕ → String) → (serial : String) → Ledger → Printed
unfolding print_entry
cmd_show shown serial ledger = elim (Ledger.get serial ledger) [
  | none ↦ Printed.exits (String.◌++◌ "no ledger entry for serial " serial)
  | some entry ↦ Printed.lines (print_entry shown entry)
]

-- The line of a change; an entry that is None has no attributes.
abbrev changed_line : (done : String) → Option LedgerEntry → Printed
changed_line done none = Printed.fails
changed_line done (some e) = Printed.lines (
    joined (done ∷ " serial=" ∷ e.serial ∷ " uuid=" ∷ e.uuid ∷ " state=" ∷ state_word e.state ∷ [])
    ∷ [])

unfoldable pub cmd_register :
    (now : ℕ) (uuid serial fingerprint not_after : String) → Ledger → Printed × Ledger
cmd_register now uuid serial fingerprint not_after ledger =
    let (entry, after) = Ledger.register now uuid serial fingerprint not_after ledger in
    (changed_line "registered" entry, after)

abbrev change_printed : (done : String) → Result LedgerError (Option LedgerEntry) → Printed
change_printed done (err (LedgerError.not_registered serial)) =
    Printed.exits (String.◌++◌ "serial not registered: " serial)
change_printed done (ok entry) = changed_line done entry

unfoldable pub cmd_revoke : (now : ℕ) → (serial : String) → Ledger → Printed × Ledger
cmd_revoke now serial ledger =
    let (result, after) = Ledger.revoke now serial ledger in
    (change_printed "revoked" result, after)

unfoldable pub cmd_reactivate : (now : ℕ) → (serial : String) → Ledger → Printed × Ledger
cmd_reactivate now serial ledger =
    let (result, after) = Ledger.reactivate now serial ledger in
    (change_printed "reactivated" result, after)
