-- ===== src/Ledger.antt =====
-- cagent/src/cagent_api/ledger.py: the methods of `Ledger`. The file on disk is the list of its
-- events, oldest first; a method that appends returns the longer list.
pub mod Console
pub mod Main
pub mod Log
pub mod Standing
pub mod Changes
use pj_clusterintent.Prelude.{
  ℕ, String, Bool, true, false, Option, none, some, List, [], ◌∷◌, ◌++◌, leb, is_some,
}
use pj_clusterintent.Prelude.Dict
use pj_clusterintent.Prelude.Result.{Result, ok, err}
use pj_clusterintent.Prelude.Sort.{sort}
use pj_clusterintent.Ledger.Log.{Action, Event, LedgerEntry, LedgerState, fold}

abbrev pub Ledger : Type 0
Ledger = List Event

pub data LedgerError : Type 0 where
  not_registered : String → LedgerError

unfoldable pub append : Event → Ledger → Ledger
append event ledger = ledger ++ event ∷ []

unfoldable pub get : String → Ledger → Option LedgerEntry
get serial ledger = Dict.get serial (fold ledger)

-- `self.get(serial)` after the append is the method's result.
unfoldable pub register :
    (now : ℕ) (uuid serial fingerprint not_after : String) → Ledger → Option LedgerEntry × Ledger
register now uuid serial fingerprint not_after ledger =
    let after =
      append
        (record { ts = now; serial = serial; action = Action.register uuid fingerprint not_after })
        ledger in
    (get serial after, after)

-- `revoke` and `reactivate` are one method up to the word that they append.
change : Action → ℕ → String → Ledger → Result LedgerError (Option LedgerEntry) × Ledger
change action now serial ledger = elim (get serial ledger) [
  | none ↦ (err (not_registered serial), ledger)
  | some entry ↦
      let after = append (record { ts = now; serial = serial; action = action }) ledger in
      (ok (get serial after), after)
]

unfoldable pub revoke : ℕ → String → Ledger → Result LedgerError (Option LedgerEntry) × Ledger
unfolding change
revoke = change Action.revoke

unfoldable pub reactivate : ℕ → String → Ledger → Result LedgerError (Option LedgerEntry) × Ledger
unfolding change
reactivate = change Action.reactivate

-- All entries, oldest registration first.
unfoldable pub list : Ledger → List LedgerEntry
list ledger = sort (λ a b. leb a.issued_at b.issued_at) (Dict.values (fold ledger))

abbrev pub state_is_active : LedgerState → Bool
state_is_active LedgerState.active = true
state_is_active LedgerState.revoked = false

abbrev pub entry_is_active : Option LedgerEntry → Bool
entry_is_active none = false
entry_is_active (some entry) = state_is_active entry.state

unfoldable pub is_active : String → Ledger → Bool
is_active serial ledger = entry_is_active (get serial ledger)

-- `fromisoformat` reads a timestamp, or raises: the outer `none`.
unfoldable pub is_expired : (String → Option ℕ) → String → ℕ → Ledger → Option Bool
is_expired fromisoformat serial now ledger = elim (get serial ledger) [
  | none ↦ some true
  | some entry ↦ elim (fromisoformat entry.not_after) [
    | none ↦ none
    | some not_after ↦ some (leb not_after now)
  ]
]
