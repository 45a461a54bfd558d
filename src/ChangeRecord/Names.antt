-- ===== src/ChangeRecord/Names.antt =====
-- The names of a change topic in change_record.py, with the two prefixes of instance.py. The prefix of
-- a resolved topic is agag's.
use Prim.Native.String
use pj_clusterintent.Prelude.{
  ℕ, String, Bool, false, ◌==◌, ◌&&◌, ◌||◌, leb, none, some, if◌then◌else◌, is_some, str_eq, ◌≡◌,
  refl,
}
use pj_clusterintent.Prelude.Dashes.{sub_runs, lstrip_dashes, rstrip_dashes}
use pj_clusterintent.Prelude.Text.{strip_prefix}

abbrev topic_prefix : String
topic_prefix = "cagent-"

abbrev change_topic_prefix : String
change_topic_prefix = "change-"

pub record Prefixes : Type 0 where
  pub resolved_topic_prefix : String

-- `s[len(p):] if s.startswith(p) else s`
abbrev without_prefix : String → String → String
without_prefix p s = elim (strip_prefix p s) [ none ↦ s | some rest ↦ rest ]

unfoldable pub bare_topic : Prefixes → String → String
unfolding strip_prefix
bare_topic prefixes topic = without_prefix prefixes.resolved_topic_prefix topic

-- `[A-Za-z0-9._-]`
abbrev is_name_char : ℕ → Bool
is_name_char c =
    (leb 65 c && leb c 90)
    || (leb 97 c && leb c 122)
    || (leb 48 c && leb c 57)
    || c == 46
    || c == 95
    || c == 45

abbrev or_change : String → String
or_change name = if str_eq name "" then "change" else name

-- Python's `str.strip` is the argument `strip`.
unfoldable pub stem_of : (strip : String → String) → Prefixes → String → String
unfolding bare_topic sub_runs lstrip_dashes rstrip_dashes
stem_of strip prefixes topic = or_change (
    rstrip_dashes (
      lstrip_dashes (
        sub_runs is_name_char false (
          without_prefix change_topic_prefix
            (without_prefix topic_prefix (strip (bare_topic prefixes topic)))))))

unfoldable pub change_topic_name :
    (strip : String → String) → Prefixes → (digits : ℕ → String) → (stem : String) → ℕ → String
unfolding stem_of
change_topic_name strip prefixes digits stem origin_id =
    String.◌++◌ change_topic_prefix
      (String.◌++◌ (stem_of strip prefixes stem) (String.◌++◌ "-o" (digits origin_id)))

unfoldable pub change_label : (digits : ℕ → String) → ℕ → String
change_label digits anchor_id = String.◌++◌ "c" (digits anchor_id)

unfoldable pub is_change_topic : Prefixes → String → Bool
unfolding bare_topic strip_prefix
is_change_topic prefixes topic =
    is_some (strip_prefix change_topic_prefix (bare_topic prefixes topic))

unfoldable pub record_link : Prefixes → (channel topic : String) → String
unfolding bare_topic
record_link prefixes channel topic =
    String.◌++◌ "#**"
      (String.◌++◌ channel (String.◌++◌ ">" (String.◌++◌ (bare_topic prefixes topic) "**")))

test_stem :
    stem_of (λ s. s) (record { resolved_topic_prefix = "R " }) "R cagent-agpc  dns!" ≡ "agpc-dns"
unfolding stem_of strip_prefix
test_stem = refl
