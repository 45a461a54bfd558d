-- ===== src/Examples/LedgerRuns.antt =====
-- A ledger with two serials.
use pj_clusterintent.Prelude.{String, ◌≡◌, refl, ◌↔◌, ◌≢◌, true, false, [], ◌∷◌, reverse}
use pj_clusterintent.Prelude.Dict
use pj_clusterintent.Prelude.Result.{err}
use pj_clusterintent.Ledger.Log.{Action, fold}
use pj_clusterintent.Ledger
use pj_clusterintent.Ledger.{Ledger, not_registered, is_active, get}
use pj_clusterintent.Ledger.Standing.{is_trusted, is_registered, is_active-eq-is_trusted}
use pj_clusterintent.Ledger.Changes.{revoke_takes_effect, revoke_raises_iff}

abbrev two_nodes : Ledger
two_nodes =
    record { ts = 5; serial = "0a"; action = Action.register "u1" "f1" "2030" }
    ∷ record { ts = 3; serial = "0b"; action = Action.register "u2" "f2" "2031" }
    ∷ record { ts = 7; serial = "0b"; action = Action.revoke }
    ∷ []

is_active-eq-is_trusted_example : is_active "0b" two_nodes ≡ is_trusted "0b" (reverse two_nodes)
is_active-eq-is_trusted_example = is_active-eq-is_trusted "0b" two_nodes

revoke_takes_effect_example :
    (is_active "0a" (Ledger.revoke 9 "0a" two_nodes).1 ≡ false)
    × ((j : String) → "0a" ≢ j → get j (Ledger.revoke 9 "0a" two_nodes).1 ≡ get j two_nodes)
revoke_takes_effect_example = revoke_takes_effect 9 "0a" two_nodes

revoke_raises_iff_example :
    (Ledger.revoke 9 "0c" two_nodes ≡ (err (not_registered "0c"), two_nodes))
    ↔ (is_registered "0c" (reverse two_nodes) ≡ false)
revoke_raises_iff_example = revoke_raises_iff 9 "0c" two_nodes

first_is_active : is_active "0a" two_nodes ≡ true
unfolding is_active get fold Dict.get Dict.put
first_is_active = refl

second_is_revoked : is_active "0b" two_nodes ≡ false
unfolding is_active get fold Dict.get Dict.put
second_is_revoked = refl
