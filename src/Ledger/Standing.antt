-- ===== src/Ledger/Standing.antt =====
-- What the fold of ledger.py says of a serial, read from the newest event backwards.
use pj_clusterintent.Prelude.{
  ℕ, String, ◌≡◌, refl, Bool, true, false, Option, none, some, List, [], ◌∷◌, reverse, arith,
  str_eq, eq_iff, if◌then◌else◌, foldl-reverse, is_some, ◌||◌, ◌&&◌, ◌∙◌, ap, Option-cases, inl,
  inr, sym,
}
use mathlib.Core.List.{reverse-reverse, foldl-append}
use pj_clusterintent.Prelude.Dict
use pj_clusterintent.Prelude.Dict.{Dict, get-put, get-put_self}
use pj_clusterintent.Ledger.Log.{
  Action, Event, LedgerEntry, LedgerState, apply_action, apply_event, fold, register, revoke,
  reactivate, other,
}
use pj_clusterintent.Ledger.{Ledger, is_active, get, append, entry_is_active}

-- What an action makes of the entry of its own serial.
abbrev pub entry_step : Action → ℕ → String → Option LedgerEntry → Option LedgerEntry
entry_step (register uuid fingerprint not_after) ts serial _ = some (record {
  uuid = uuid;
  serial = serial;
  fingerprint = fingerprint;
  issued_at = ts;
  not_after = not_after;
  state = LedgerState.active;
  revoked_at = none;
})
entry_step revoke ts serial (some c) =
    some (record c { serial = serial; state = LedgerState.revoked; revoked_at = some ts })
entry_step reactivate ts serial (some c) =
    some (record c { serial = serial; state = LedgerState.active; revoked_at = none })
entry_step _ ts serial current = current

-- An action changes the entry of its own serial, and no other.
get-apply_action :
    (a : Action) (ts : ℕ) (j k : String) (d : Dict LedgerEntry)
    → Dict.get j (apply_action a ts k d)
      ≡ (if str_eq k j then entry_step a ts k (Dict.get k d) else Dict.get j d)
unfolding apply_action
get-apply_action (register u f n) ts j k d = get-put j k _ d
get-apply_action revoke ts j k d = elim (Option-cases (Dict.get k d)) [
  | inl e ↦ rw (e, apply_action) (ground (arith, eq_iff k j))
  | inr (c, e) ↦ rw (e, apply_action) (get-put j k _ d)
]
get-apply_action reactivate ts j k d = elim (Option-cases (Dict.get k d)) [
  | inl e ↦ rw (e, apply_action) (ground (arith, eq_iff k j))
  | inr (c, e) ↦ rw (e, apply_action) (get-put j k _ d)
]
get-apply_action (other w) ts j k d = ground (arith, eq_iff k j)

abbrev is_register : Action → Bool
is_register (register u f n) = true
is_register _ = false

-- Was the serial registered by any of the events?
abbrev pub is_registered : String → List Event → Bool
is_registered serial [] = false
is_registered serial (e ∷ older) =
    (str_eq e.serial serial && is_register e.action) || is_registered serial older

-- The newest event of the serial that says something decides. Events are listed newest first.
abbrev trusted_step : Action → (older : Bool) → (registered : Bool) → Bool
trusted_step (register u f n) older registered = true
trusted_step revoke older registered = false
trusted_step reactivate older registered = registered
trusted_step (other w) older registered = older

abbrev pub is_trusted : String → List Event → Bool
is_trusted serial [] = false
is_trusted serial (e ∷ older) =
    if str_eq e.serial serial
    then trusted_step e.action (is_trusted serial older) (is_registered serial older)
    else is_trusted serial older

-- The entry of a serial, after one more event.
pub get-fold_cons :
    (serial : String) (e : Event) (older : List Event)
    → Dict.get serial (fold (reverse (e ∷ older))) ≡ (
        if str_eq e.serial serial
        then entry_step e.action e.ts e.serial (Dict.get e.serial (fold (reverse older)))
        else Dict.get serial (fold (reverse older)))
unfolding fold
get-fold_cons serial e older =
    rw (foldl-reverse apply_event [] e older, apply_event)
      (get-apply_action e.action e.ts serial e.serial _)

-- One step of the two readings, side by side.
entry_step_lem :
    (a : Action) (ts : ℕ) (k : String) (o : Option LedgerEntry)
    → (is_some (entry_step a ts k o) ≡ (is_register a || is_some o))
      × (entry_is_active (entry_step a ts k o) ≡ trusted_step a (entry_is_active o) (is_some o))
entry_step_lem (register u f n) ts k o = (refl, refl)
entry_step_lem revoke ts k o = ground arith
entry_step_lem reactivate ts k o = ground arith
entry_step_lem (other w) ts k o = (refl, refl)

abbrev seen : String → List Event → Option LedgerEntry
seen serial newest_first = Dict.get serial (fold (reverse newest_first))

seen_lem :
    (serial : String) (es : List Event)
    → (is_some (seen serial es) ≡ is_registered serial es)
      × (entry_is_active (seen serial es) ≡ is_trusted serial es)
unfolding fold Dict.get
seen_lem serial [] = (refl, refl)
seen_lem serial (e ∷ older) = ground (
  arith,
  get-fold_cons serial e older,
  seen_lem serial older,
  entry_step_lem e.action e.ts e.serial (seen serial older),
  eq_iff e.serial serial,
)

-- A serial is active exactly when the newest event that says something of it, read backwards
-- through the log, grants trust: a registration, or a reactivation of a registered serial.
pub is_active-eq-is_trusted :
    (serial : String) (ledger : Ledger)
    → is_active serial ledger ≡ is_trusted serial (reverse ledger)
unfolding is_active get
is_active-eq-is_trusted serial ledger =
    ap (λ es. entry_is_active (Dict.get serial (fold es))) (sym (reverse-reverse ledger))
    ∙ (seen_lem serial (reverse ledger)).1

pub is_registered-reverse :
    (serial : String) (ledger : Ledger)
    → is_some (get serial ledger) ≡ is_registered serial (reverse ledger)
unfolding get
is_registered-reverse serial ledger =
    ap (λ es. is_some (Dict.get serial (fold es))) (sym (reverse-reverse ledger))
    ∙ (seen_lem serial (reverse ledger)).0

-- The entry of a serial, after one more event at the end of the log.
pub get-append :
    (j : String) (e : Event) (ledger : Ledger)
    → get j (append e ledger) ≡ (
        if str_eq e.serial j
        then entry_step e.action e.ts e.serial (get e.serial ledger)
        else get j ledger)
unfolding get append fold
get-append j e ledger = rw (foldl-append, apply_event) (get-apply_action e.action e.ts j e.serial _)
