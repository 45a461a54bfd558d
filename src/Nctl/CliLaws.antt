-- ===== src/Nctl/CliLaws.antt =====
-- The parser of the `cagent` command and the list of what is allowed coincide.
use Prim.Native.String.append
use pj_clusterintent.Prelude.{
  ℕ, String, Bool, true, false, Option, none, some, List, [], ◌∷◌, ◌++◌, any, str_eq, ◌≡◌, refl, ap,
  ◌∙◌, arith, Bool-cases, inl, inr, Among,
}
use pj_clusterintent.Prelude.Text.{strip_prefix}
use pj_clusterintent.Prelude.Result.{ok}
use pj_clusterintent.Nctl.Shlex.{split, join}
use pj_clusterintent.Nctl.Surface.{
  nctl_switches, nctl_options, partition, behind, find_subcommand, is_dashed, account, account_all,
  validate_parts, validate, Subcommand,
}
use pj_clusterintent.Nctl.Cli.{
  Command, Proc, namespace_of, compose, main, exit_code, switch_part, option_part, flag_parts,
}
use pj_clusterintent.Nctl.RoundTrip.{split-join}
use pj_clusterintent.Nctl.Accounting.{whole, whole-partition, any-Among}

dashed :
    (n : String) (o : Option String)
    → Among n (nctl_switches ++ nctl_options)
    → is_dashed (whole (n, o)) ≡ true
unfolding strip_prefix
dashed n none (inl e) = rw e refl
dashed n none (inr (inl e)) = rw e refl
dashed n none (inr (inr (inl e))) = rw e refl
dashed n none (inr (inr (inr (inl e)))) = rw e refl
dashed n none (inr (inr (inr (inr (inl e))))) = rw e refl
dashed n none (inr (inr (inr (inr (inr m))))) = elim m [ ]
dashed n (some v) (inl e) = rw (e, append.cons "-" "-json" (String.◌∷◌ "=" v)) refl
dashed n (some v) (inr (inl e)) = rw (e, append.cons "-" "-detail" (String.◌∷◌ "=" v)) refl
dashed n (some v) (inr (inr (inl e))) = rw (e, append.cons "-" "-host" (String.◌∷◌ "=" v)) refl
dashed n (some v) (inr (inr (inr (inl e)))) =
    rw (e, append.cons "-" "-limit" (String.◌∷◌ "=" v)) refl
dashed n (some v) (inr (inr (inr (inr (inl e))))) =
    rw (e, append.cons "-" "-after-seq" (String.◌∷◌ "=" v)) refl
dashed n (some v) (inr (inr (inr (inr (inr m))))) = elim m [ ]

not_a_flag :
    (p : String × Option String)
    → is_dashed (whole p) ≡ false
    → any (str_eq p.0) (nctl_switches ++ nctl_options) ≡ false
not_a_flag (n, o) h = elim (Bool-cases (any (str_eq n) (nctl_switches ++ nctl_options))) [
  | inl e ↦ ground (arith, dashed n o (any-Among n (nctl_switches ++ nctl_options) e))
  | inr e ↦ e
]

show : Subcommand
show = record { words = "ops" ∷ "show" ∷ []; extra = 1 }

account-operation_id :
    (id : String) → is_dashed id ≡ false → account show 0 id (partition id) ≡ ok (1, false)
unfolding account show
account-operation_id id h =
    ground (arith, not_a_flag (partition id) (ap is_dashed (whole-partition id) ∙ h))

module _ (c : Subcommand) (n : ℕ) where
  account_all-switch_part :
      (name : String) (b : Bool) (rest : List String)
      → account c n name (partition name) ≡ ok (n, false)
      → account_all c n false rest ≡ ok tt
      → account_all c n false (switch_part name b ++ rest) ≡ ok tt
  unfolding account_all
  account_all-switch_part name true rest h k = rw h k
  account_all-switch_part name false rest h k = k

  account_all-option_part :
      (name : String) (o : Option String) (rest : List String)
      → account c n name (partition name) ≡ ok (n, true)
      → account_all c n false rest ≡ ok tt
      → account_all c n false (option_part name o ++ rest) ≡ ok tt
  unfolding account_all
  account_all-option_part name (some v) rest h k = rw h k
  account_all-option_part name none rest h k = k

  account_all-last_option :
      (name : String) (o : Option String)
      → account c n name (partition name) ≡ ok (n, true)
      → account_all c n false (option_part name o) ≡ ok tt
  unfolding account_all
  account_all-last_option name (some v) h = rw h refl
  account_all-last_option name none h = refl

  account_all-flags :
      (json detail : Bool) (host limit after_seq : Option String)
      → account_all c n false (flag_parts json detail host limit after_seq) ≡ ok tt
  unfolding account partition
  account_all-flags json detail host limit after_seq =
      account_all-switch_part "--json" json _ refl (
        account_all-switch_part "--detail" detail _ refl (
          account_all-option_part "--host" host _ refl (
            account_all-option_part "--limit" limit _ refl
              (account_all-last_option "--after-seq" after_seq refl))))

-- What the parser gives for a command is accepted, unless an operation id is spelled like a flag.
abbrev pub IsPlain : Command → Type 0
IsPlain (Command.ops_show id after_seq json) = is_dashed id ≡ false
IsPlain command = Unit

validate_parts-compose :
    (args : String) (command : Command)
    → IsPlain command
    → validate_parts args (compose (namespace_of command)) ≡ ok (compose (namespace_of command))
unfolding validate_parts find_subcommand behind compose namespace_of show
validate_parts-compose args (Command.status json) h =
    rw (account_all-flags (record { words = "status" ∷ []; extra = 0 }) 0 json false none none none)
      refl
validate_parts-compose args (Command.drift host json) h =
    rw (account_all-flags (record { words = "drift" ∷ []; extra = 0 }) 0 json false host none none)
      refl
validate_parts-compose args (Command.relations host json) h =
    rw
      (account_all-flags (record { words = "relations" ∷ []; extra = 0 }) 0 json false host none
        none)
      refl
validate_parts-compose args (Command.actual json detail) h =
    rw
      (account_all-flags (record { words = "actual" ∷ []; extra = 0 }) 0 json detail none none none)
      refl
validate_parts-compose args (Command.ops_list limit json) h =
    rw
      (account_all-flags (record { words = "ops" ∷ "list" ∷ []; extra = 0 }) 0 json false none limit
        none)
      refl
validate_parts-compose args (Command.ops_show id after_seq json) h =
    elim (Bool-cases (str_eq id "")) [
      | inl e ↦ rw (e, account_all-flags show 0 json false none none after_seq) refl
      | inr e ↦
          rw (e, account-operation_id id h, account_all-flags show 1 json false none none after_seq)
            refl
    ]

validate_readable :
    (args : String) (ps : List String)
    → split args ≡ some ps
    → validate args ≡ validate_parts args ps
unfolding validate
validate_readable args ps e = rw (e, validate) refl

validate-compose :
    (command : Command)
    → IsPlain command
    → validate (join (compose (namespace_of command))) ≡ ok (compose (namespace_of command))
validate-compose command h =
    validate_readable (join (compose (namespace_of command))) (compose (namespace_of command))
      (split-join (compose (namespace_of command)))
    ∙ validate_parts-compose (join (compose (namespace_of command))) command h

-- Every invocation of the command whose operation id does not start with a dash runs `nctl` on exactly what it composed.
pub main_runs :
    (run_nctl : List String → Proc) (command : Command)
    → IsPlain command
    → main run_nctl command ≡ exit_code (run_nctl (compose (namespace_of command)))
unfolding main
main_runs run_nctl command h = rw (main, validate-compose command h) refl
