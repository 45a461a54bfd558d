-- ===== src/Examples/NctlRuns.antt =====
-- Calls of the read-only surface.
use pj_clusterintent.Prelude.{String, ◌≡◌, refl, true, some, none, List, [], ◌∷◌}
use pj_clusterintent.Prelude.Result.{ok, err}
use pj_clusterintent.Prelude.Text.{strip_prefix}
use pj_clusterintent.Nctl.Shlex.{split, join}
use pj_clusterintent.Nctl.Surface.{
  validate, partition, find_subcommand, behind, account_all, Refusal,
}
use pj_clusterintent.Nctl.Cli.{Command, Proc, namespace_of, compose, main, exit_code}
use pj_clusterintent.Nctl.RoundTrip.{split-join}
use pj_clusterintent.Nctl.Accounting.{Permitted, validate_sound}
use pj_clusterintent.Nctl.CliLaws.{main_runs}

nctl_runs : Unit {0}
unfolding validate split partition find_subcommand behind account_all strip_prefix
nctl_runs = tt

drift_call : validate "drift --host=a --limit 3" ≡ ok ("drift" ∷ "--host=a" ∷ "--limit" ∷ "3" ∷ [])
unfolding nctl_runs
drift_call = refl

refused_call : validate "drift; rm" ≡ err (Refusal.not_a_subcommand "drift; rm")
unfolding nctl_runs
refused_call = refl

validate_sound_example :
    (split "drift --host=a --limit 3" ≡ some ("drift" ∷ "--host=a" ∷ "--limit" ∷ "3" ∷ []))
    × Permitted ("drift" ∷ "--host=a" ∷ "--limit" ∷ "3" ∷ [])
validate_sound_example =
    validate_sound "drift --host=a --limit 3" ("drift" ∷ "--host=a" ∷ "--limit" ∷ "3" ∷ [])
      drift_call

split-join_example : split (join ("it's" ∷ "" ∷ "a b" ∷ [])) ≡ some ("it's" ∷ "" ∷ "a b" ∷ [])
split-join_example = split-join ("it's" ∷ "" ∷ "a b" ∷ [])

abbrev exits_with_length : List String → Proc
exits_with_length parts = Proc.exited 3

a_plain_id : strip_prefix "-" "01KX" ≡ none
unfolding strip_prefix
a_plain_id = refl

main_runs_example :
    main exits_with_length (Command.ops_show "01KX" (some "4") true)
    ≡ exit_code
        (exits_with_length (compose (namespace_of (Command.ops_show "01KX" (some "4") true))))
main_runs_example =
    main_runs exits_with_length (Command.ops_show "01KX" (some "4") true) (rw a_plain_id refl)
