-- ===== src/Nctl/Surface.antt =====
-- The read-only nctl surface (readonly_nctl.py): the three tables and `validate`, which accounts for
-- every token. The loop's `index += 2` is the flag `skip`; a refusal keeps the parts its text names.
use pj_clusterintent.Prelude.{
  ℕ, String, Bool, true, false, not, ◌&&◌, Option, none, some, List, [], ◌∷◌, any, is_some, str_eq,
  ltb, if◌then◌else◌, suc, ◌==◌,
}
use Prim.Native.Char.{code}
use pj_clusterintent.Prelude.Text.{strip_prefix}
use pj_clusterintent.Prelude.Result.{Result, ok, err, ◌>>=◌}
use pj_clusterintent.Nctl.Shlex.{split}

-- The subcommand's words, and how many positional arguments follow.
pub record Subcommand : Type 0 where
  pub words : List String
  pub extra : ℕ

abbrev sub : List String → ℕ → Subcommand
sub words extra = record { words = words; extra = extra }

abbrev pub nctl_subcommands : List Subcommand
nctl_subcommands =
    sub ("status" ∷ []) 0
    ∷ sub ("drift" ∷ []) 0
    ∷ sub ("relations" ∷ []) 0
    ∷ sub ("actual" ∷ []) 0
    ∷ sub ("ops" ∷ "list" ∷ []) 0
    ∷ sub ("ops" ∷ "show" ∷ []) 1
    ∷ []

abbrev pub nctl_switches : List String
nctl_switches = "--json" ∷ "--detail" ∷ []

abbrev pub nctl_options : List String
nctl_options = "--host" ∷ "--limit" ∷ "--after-seq" ∷ []

pub data Refusal : Type 0 where
  could_not_parse : Refusal
  not_a_subcommand : String → Refusal
  not_an_option : String → Refusal
  extra_argument : String → List String → Refusal

-- `token.partition("=")`: the name, and the text behind the `=` if there is one
unfoldable pub partition : String → String × Option String
partition String.[] = ("", none)
partition (String.◌∷◌ c s) =
    let p = partition s in if code c == 61 then ("", some s) else (String.◌∷◌ c p.0, p.1)

-- `parts[len(words):]` if `parts[:len(words)] == list(words)`
unfoldable pub behind : List String → List String → Option (List String)
behind [] parts = some parts
behind (w ∷ words) [] = none
behind (w ∷ words) (p ∷ parts) = if str_eq p w then behind words parts else none

-- `next(... for words, extra in NCTL_SUBCOMMANDS if ...)`
unfoldable pub find_subcommand : List Subcommand → List String → Option (Subcommand × List String)
find_subcommand [] parts = none
find_subcommand (c ∷ cs) parts = elim (behind c.words parts) [
  | none ↦ find_subcommand cs parts
  | some rest ↦ some (c, rest)
]

abbrev pub is_switch : String × Option String → Bool
is_switch p = any (str_eq p.0) nctl_switches && not (is_some p.1)

abbrev pub is_option : String × Option String → Bool
is_option p = any (str_eq p.0) nctl_options

abbrev pub is_dashed : String → Bool
is_dashed token = is_some (strip_prefix "-" token)

-- One turn of the loop: the positionals so far, and whether the next token is an option's value.
unfoldable pub account :
    Subcommand → ℕ → String → String × Option String → Result Refusal (ℕ × Bool)
account c positionals token p =
    if is_switch p
    then ok (positionals, false)
    else if is_option p
    then ok (positionals, not (is_some p.1))
    else if is_dashed token
    then err (Refusal.not_an_option token)
    else if ltb c.extra (suc positionals)
    then err (Refusal.extra_argument token c.words)
    else ok (suc positionals, false)

unfoldable pub account_all : Subcommand → ℕ → Bool → List String → Result Refusal (Unit {0})
unfolding account
account_all c positionals skip [] = ok tt
account_all c positionals true (token ∷ rest) = account_all c positionals false rest
account_all c positionals false (token ∷ rest) =
    account c positionals token (partition token) >>= λ n. account_all c n.0 n.1 rest

unfoldable pub validate_parts : String → List String → Result Refusal (List String)
unfolding account_all find_subcommand
validate_parts args parts = elim (find_subcommand nctl_subcommands parts) [
  | none ↦ err (Refusal.not_a_subcommand args)
  | some (c, rest) ↦ account_all c 0 false rest >>= λ _. ok parts
]

unfoldable pub validate : String → Result Refusal (List String)
unfolding validate_parts
validate args = elim (split args) [
  | none ↦ err Refusal.could_not_parse
  | some parts ↦ validate_parts args parts
]
