-- ===== src/Prelude/Dashes.antt =====
-- The names that the program makes of free text: runs of other characters become one dash, and the
-- dashes at the ends go.
use Prim.Native.Char.{code}
use Prim.Native.String.{String, [], ◌∷◌}
use text.Mathlib.Text.{◌==◌ as str_eq}
use mathlib.Core.Path.{◌≡◌, refl}
use mathlib.Core.Logic.{◌⊎◌, inl, inr}
use mathlib.Core.Bool.{Bool, true, false, not, ◌&&◌}
use Prim.Native.Nat.{ℕ, zero, suc}
use native.Mathlib.Omega.{arith}
use text.Mathlib.TextEquality.{eq_iff}
use pj_clusterintent.Prelude.Tests.{◌==◌, if◌then◌else◌, Bool-cases}

module _ (keep : ℕ → Bool) where
  -- `re.sub("[^…]+", "-", text)`: the flag says that the run of other characters has its dash already.
  unfoldable pub sub_runs : Bool → String → String
  sub_runs dashed [] = ""
  sub_runs dashed (c ∷ s) =
      let word = sub_runs false s in
      let other = sub_runs true s in
      if keep (code c) then c ∷ word else if dashed then other else "-" ∷ other

-- `text.lstrip("-")`
unfoldable pub lstrip_dashes : String → String
lstrip_dashes [] = ""
lstrip_dashes (c ∷ s) = let rest = lstrip_dashes s in if code c == 45 then rest else c ∷ s

-- `text.rstrip("-")`
unfoldable pub rstrip_dashes : String → String
rstrip_dashes [] = ""
rstrip_dashes (c ∷ s) =
    let rest = rstrip_dashes s in if code c == 45 && str_eq rest "" then "" else c ∷ rest

-- The first `n` characters.
unfoldable pub first_chars : ℕ → String → String
first_chars zero s = ""
first_chars (suc n) [] = ""
first_chars (suc n) (c ∷ s) = c ∷ first_chars n s

module _ (keep : ℕ → Bool) where
  -- Kept characters and dashes, no two dashes side by side; the flag says that a dash stands in front.
  abbrev pub has_single_dashes : Bool → String → Bool
  has_single_dashes dashed [] = true
  has_single_dashes dashed (c ∷ s) =
      if code c == 45
      then not dashed && has_single_dashes true s
      else keep (code c) && has_single_dashes false s

  -- The same, with something kept at the end: words of kept characters joined by single dashes.
  abbrev pub is_dashed_words : Bool → String → Bool
  is_dashed_words dashed [] = not dashed
  is_dashed_words dashed (c ∷ s) =
      if code c == 45
      then not dashed && is_dashed_words true s
      else keep (code c) && is_dashed_words false s

  pub sub_runs-single_dashes :
      (dashed : Bool) (s : String)
      → keep 45 ≡ false
      → has_single_dashes dashed (sub_runs keep dashed s) ≡ true
  unfolding sub_runs
  sub_runs-single_dashes dashed [] h = refl
  sub_runs-single_dashes dashed (c ∷ s) h =
      ground (arith, sub_runs-single_dashes false s h, sub_runs-single_dashes true s h)

  pub lstrip-single_dashes :
      (dashed : Bool) (s : String)
      → has_single_dashes dashed s ≡ true
      → has_single_dashes true (lstrip_dashes s) ≡ true
  unfolding lstrip_dashes
  lstrip-single_dashes dashed [] h = refl
  lstrip-single_dashes dashed (c ∷ s) h =
      ground (arith, lstrip-single_dashes true s, lstrip-single_dashes false s)

  ended :
      (s : String) → (s ≡ "") ⊎ (is_dashed_words false s ≡ true) → is_dashed_words false s ≡ true
  ended s (inl e) = rw e refl
  ended s (inr e) = e

  pub rstrip-dashed_words :
      (dashed : Bool) (s : String)
      → has_single_dashes dashed s ≡ true
      → (rstrip_dashes s ≡ "") ⊎ (is_dashed_words dashed (rstrip_dashes s) ≡ true)
  unfolding rstrip_dashes
  rstrip-dashed_words dashed [] h = inl refl
  rstrip-dashed_words dashed (c ∷ s) h = elim (Bool-cases (code c == 45)) [
    | inl e ↦ ground (arith, rstrip-dashed_words true s, eq_iff (rstrip_dashes s) "")
    | inr e ↦
        inr (ground (arith, ended (rstrip_dashes s) (rstrip-dashed_words false s (ground arith))))
  ]
