-- ===== src/Ledger/Changes.antt =====
-- What the methods of `Ledger` change, and what they leave alone.
use mathlib.Core.List.{Perm, reverse-reverse}
use mathlib.Core.Path.{subst}
use pj_clusterintent.Prelude.{
  ℕ, String, ◌≡◌, refl, ◌≢◌, ◌↔◌, true, false, Option, none, some, List, [], ◌∷◌, reverse, arith,
  eq_iff, eq_refl, str_eq, if◌then◌else◌, inl, inr, is_some, leb, leb_total, not, Bool-cases,
}
use pj_clusterintent.Prelude.Dict
use pj_clusterintent.Prelude.Result.{err}
use pj_clusterintent.Prelude.Sort.{sort-perm, sort-IsSorted, IsSorted}
use pj_clusterintent.Ledger.Log.{Action, Event, LedgerEntry, fold}
use pj_clusterintent.Ledger.{
  Ledger, not_registered, get, register, revoke, reactivate, is_active, list, state_is_active,
  entry_is_active,
}
use pj_clusterintent.Ledger.Standing.{
  get-append, is_registered, is_registered-reverse, entry_step, get-fold_cons,
}

get-revoke :
    (j : String) (now : ℕ) (serial : String) (ledger : Ledger)
    → get j (revoke now serial ledger).1 ≡ (
        if str_eq serial j
        then entry_step Action.revoke now serial (get serial ledger)
        else get j ledger)
unfolding revoke
get-revoke j now serial ledger = ground (
  arith,
  eq_iff serial j,
  get-append j (record { ts = now; serial = serial; action = Action.revoke }) ledger,
)

get-reactivate :
    (j : String) (now : ℕ) (serial : String) (ledger : Ledger)
    → get j (reactivate now serial ledger).1 ≡ (
        if str_eq serial j
        then entry_step Action.reactivate now serial (get serial ledger)
        else get j ledger)
unfolding reactivate
get-reactivate j now serial ledger = ground (
  arith,
  eq_iff serial j,
  get-append j (record { ts = now; serial = serial; action = Action.reactivate }) ledger,
)

-- After `revoke`, whether it raised or not, the serial is not active, and the entry of every
-- other serial is what it was.
pub revoke_takes_effect :
    (now : ℕ) (serial : String) (ledger : Ledger)
    → (is_active serial (revoke now serial ledger).1 ≡ false)
      × ((j : String) → serial ≢ j → get j (revoke now serial ledger).1 ≡ get j ledger)
unfolding is_active
revoke_takes_effect now serial ledger = (
  ground (arith, get-revoke serial now serial ledger, eq_refl serial),
  λ j h. ground (arith, get-revoke j now serial ledger, eq_iff serial j),
)

-- After `register` the serial is active, whatever was known of it, and the entry of every other serial is what
-- it was.
pub register_takes_effect :
    (now : ℕ) (uuid serial fingerprint not_after : String) (ledger : Ledger)
    → (is_active serial (register now uuid serial fingerprint not_after ledger).1 ≡ true)
      × ((j : String)
          → serial ≢ j
          → get j (register now uuid serial fingerprint not_after ledger).1 ≡ get j ledger)
unfolding is_active register
register_takes_effect now uuid serial fingerprint not_after ledger =
    let event : Event = record {
      ts = now;
      serial = serial;
      action = Action.register uuid fingerprint not_after;
    } in
    (
      ground (arith, get-append serial event ledger, eq_refl serial),
      λ j h. ground (arith, get-append j event ledger, eq_iff serial j),
    )

-- `revoke` raises exactly when no event of the log registers the serial, and then the log stays
-- as it was.
pub revoke_raises_iff :
    (now : ℕ) (serial : String) (ledger : Ledger)
    → (revoke now serial ledger ≡ (err (not_registered serial), ledger))
      ↔ (is_registered serial (reverse ledger) ≡ false)
unfolding revoke
revoke_raises_iff now serial ledger = ground (arith, is_registered-reverse serial ledger)

-- An entry as it should stand under a serial.
abbrev pub IsConsistent : String → Option LedgerEntry → Type 0
IsConsistent serial none = Unit
IsConsistent serial (some e) =
    (e.serial ≡ serial) × (is_some e.revoked_at ≡ not (state_is_active e.state))

entry_step-IsConsistent :
    (a : Action) (ts : ℕ) (k : String) (o : Option LedgerEntry)
    → IsConsistent k o
    → IsConsistent k (entry_step a ts k o)
entry_step-IsConsistent (Action.register u f n) ts k o h = (refl, refl)
entry_step-IsConsistent Action.revoke ts k none h = tt
entry_step-IsConsistent Action.revoke ts k (some c) h = (refl, refl)
entry_step-IsConsistent Action.reactivate ts k none h = tt
entry_step-IsConsistent Action.reactivate ts k (some c) h = (refl, refl)
entry_step-IsConsistent (Action.other w) ts k o h = h

seen-IsConsistent :
    (serial : String) (es : List Event) → IsConsistent serial (Dict.get serial (fold (reverse es)))
seen-IsConsistent serial [] = unfold fold Dict.get in tt
seen-IsConsistent serial (e ∷ older) = elim (Bool-cases (str_eq e.serial serial)) [
  | inl same ↦
      rw (get-fold_cons, same, (eq_iff e.serial serial).0 same)
        (entry_step-IsConsistent e.action e.ts serial _ (seen-IsConsistent serial older))
  | inr other ↦ rw (get-fold_cons, other) (seen-IsConsistent serial older)
]

-- The entry that a log gives for a serial stands under that serial, and has a revocation time exactly
-- when it is revoked.
get-IsConsistent : (serial : String) (ledger : Ledger) → IsConsistent serial (get serial ledger)
unfolding get
get-IsConsistent serial ledger =
    subst (λ es. IsConsistent serial (Dict.get serial (fold es))) (reverse-reverse ledger)
      (seen-IsConsistent serial (reverse ledger))

restored :
    (t u : ℕ) (serial : String) (o : Option LedgerEntry)
    → IsConsistent serial o
    → entry_is_active o ≡ true
    → entry_step Action.reactivate u serial (entry_step Action.revoke t serial o) ≡ o
restored t u serial none h e = refl
restored t u serial (some c) h e = ground arith

-- Revoking a serial that is active and reactivating it gives back its entry as it was.
reactivate-revoke :
    (t u : ℕ) (serial : String) (ledger : Ledger)
    → is_active serial ledger ≡ true
    → get serial (reactivate u serial (revoke t serial ledger).1).1 ≡ get serial ledger
unfolding is_active
reactivate-revoke t u serial ledger h =
    rw (get-reactivate, eq_refl, get-revoke, eq_refl)
      (restored t u serial (get serial ledger) (get-IsConsistent serial ledger) h)

-- `list` gives the entries of the fold, each once, by time of issue.
list_lem :
    (ledger : Ledger)
    → Perm (list ledger) (Dict.values (fold ledger))
      × IsSorted (λ a b. leb a.issued_at b.issued_at) (list ledger)
unfolding list
list_lem ledger = (sort-perm _ _, sort-IsSorted (λ a b. leb_total a.issued_at b.issued_at) _)
