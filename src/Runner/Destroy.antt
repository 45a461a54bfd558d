-- ===== src/Runner/Destroy.antt =====
-- The guard of agent_runner.py on shell commands: `_refuse_destroy` and `guarded_run`.
use Prim.Native.Char.{code}
use pj_clusterintent.Prelude.{
  ℕ, String, Bool, true, false, not, ◌&&◌, ◌||◌, ◌==◌, leb, Option, none, some, List, [], ◌∷◌,
  is_some, if◌then◌else◌, ◌≡◌, refl,
}
use pj_clusterintent.Prelude.Text.{strip_prefix, lower}
use pj_clusterintent.Prelude.Lines.{is_blank}
use pj_clusterintent.Prelude.Result.{Result, ok, err}

abbrev pub destroy_patterns : List String
destroy_patterns =
    "--allow-destroy" ∷ "nctl prune" ∷ "playbooks/proxmox/destroy_" ∷ "destroy_lxc" ∷ "destroy_qemu"
    ∷ "pct destroy" ∷ "qm destroy" ∷ "pvesh delete" ∷ "vgremove" ∷ "lvremove" ∷ "zpool destroy"
    ∷ "wipefs" ∷ "sgdisk" ∷ "mkfs" ∷ []

-- `pattern in text`
unfoldable pub contains : String → String → Bool
contains pattern String.[] = is_some (strip_prefix pattern "")
contains pattern (String.◌∷◌ c s) =
    is_some (strip_prefix pattern (String.◌∷◌ c s)) || contains pattern s

-- What Python's `str` and `re` know of letters: `str.lower`, and `\w`.
pub record Unicode : Type 0 where
  pub lower : String → String
  pub is_word : ℕ → Bool

-- `" ".join(text.split())`: the flag says that a blank is owed before the next character.
unfoldable pub squeeze : (owed started : Bool) → String → String
unfolding is_blank
squeeze owed started String.[] = ""
squeeze owed started (String.◌∷◌ c s) =
    if is_blank (code c)
    then squeeze started started s
    else (let rest = String.◌∷◌ c (squeeze false true s) in
        if owed then String.◌∷◌ " " rest else rest)

unfoldable pub lowered : Unicode → String → String
unfolding squeeze
lowered unicode command = squeeze false false (unicode.lower command)

abbrev starts_with_word_char : Unicode → String → Bool
starts_with_word_char unicode String.[] = false
starts_with_word_char unicode (String.◌∷◌ c s) = unicode.is_word (code c)

-- Does `\b` and the word stand somewhere, with what follows it accepted? `inside` says that the
-- character before is one of a word.
unfoldable pub find_word :
    Unicode → (accept : String → Bool) → (word : String) → (inside : Bool) → String → Bool
find_word unicode accept word inside String.[] = false
find_word unicode accept word inside (String.◌∷◌ c s) =
    let later = find_word unicode accept word (unicode.is_word (code c)) s in
    elim (strip_prefix word (String.◌∷◌ c s)) [
      | none ↦ later
      | some rest ↦ (not inside && accept rest) || later
    ]

-- `\bdd\b.*\bif=.*\bof=/dev/`; the text is one line.
unfoldable pub dd_to_device : Unicode → String → Bool
unfolding find_word
dd_to_device unicode text =
    find_word unicode
      (λ rest.
        not (starts_with_word_char unicode rest)
        && find_word unicode (λ r. find_word unicode (λ q. true) "of=/dev/" false r) "if=" true
            rest)
      "dd" false text

pub data DestroyRefusal : Type 0 where
  matches : String → DestroyRefusal
  image_to_device : DestroyRefusal

unfoldable pub first_match : List String → String → Option String
unfolding contains
first_match [] text = none
first_match (pattern ∷ patterns) text =
    if contains pattern text then some pattern else first_match patterns text

unfoldable pub refuse_destroy : Unicode → String → Option DestroyRefusal
unfolding first_match lowered dd_to_device
refuse_destroy unicode command = elim (first_match destroy_patterns (lowered unicode command)) [
  | some pattern ↦ some (DestroyRefusal.matches pattern)
  | none ↦
      if dd_to_device unicode (lowered unicode command)
      then some DestroyRefusal.image_to_device
      else none
]

-- The shell itself, agcode's `tool_run`, is an argument.
unfoldable pub guarded_run :
    Unicode → (tool_run : String → String) → String → Result DestroyRefusal String
unfolding refuse_destroy
guarded_run unicode tool_run command = elim (refuse_destroy unicode command) [
  | some refusal ↦ err refusal
  | none ↦ ok (tool_run command)
]

abbrev is_ascii_word : ℕ → Bool
is_ascii_word c =
    (leb 97 c && leb c 122) || (leb 65 c && leb c 90) || (leb 48 c && leb c 57) || c == 95

-- The tables of ASCII.
abbrev pub ascii : Unicode
ascii = record { lower = lower; is_word = is_ascii_word }

test_dd : dd_to_device ascii (lowered ascii "sudo DD  bs=1M if=a.img of=/dev/sda") ≡ true
unfolding dd_to_device lowered strip_prefix lower
test_dd = refl

test_pct :
    first_match destroy_patterns (lowered ascii "true;  pct \t destroy 101") ≡ some "pct destroy"
unfolding first_match lowered strip_prefix lower
test_pct = refl
