-- ===== src/Prelude/Dict.antt =====
-- Python's `dict` with text keys, in insertion order: a key that is set again keeps its place.
use text.Mathlib.Text.{◌==◌ as str_eq}
use text.Mathlib.TextEquality.{eq_iff}
use text.Mathlib.TextPositions.{eq_refl}
use pj_clusterintent.Prelude.Tests.{if◌then◌else◌, Bool-cases, some_inj}
use Prim.Native.String.{String}
use mathlib.Core.Path.{◌≡◌, refl, sym, ◌∙◌, subst₂}
use mathlib.Core.Logic.{◌≢◌, inl, inr}
use mathlib.Core.Option.{Option, none, some}
use mathlib.Core.Bool.{true, false}
use mathlib.Core.List.{List, [], ◌∷◌, map}
use native.Mathlib.Omega.{arith}

abbrev pub Dict {ℓ} : Type ℓ → Type ℓ
Dict V = List (String × V)

module _ {ℓ} {V : Type ℓ} where
  unfoldable pub get : String → Dict V → Option V
  get k [] = none
  get k ((j, v) ∷ d) = if str_eq j k then some v else get k d

  unfoldable pub put : String → V → Dict V → Dict V
  put k v [] = (k, v) ∷ []
  put k v ((j, w) ∷ d) = if str_eq j k then (j, v) ∷ d else (j, w) ∷ put k v d

  abbrev pub values : Dict V → List V
  values = map (λ e. e.1)

  abbrev pub keys : Dict V → List String
  keys = map (λ e. e.0)

  pub get-put :
      (j k : String) (v : V) (d : Dict V)
      → get j (put k v d) ≡ (if str_eq k j then some v else get j d)
  unfolding get put
  get-put j k v [] = refl
  get-put j k v ((i, w) ∷ d) = ground (arith, eq_iff k j, eq_iff i k, eq_iff i j, get-put j k v d)

  pub get-put_self : (k : String) (v : V) (d : Dict V) → get k (put k v d) ≡ some v
  get-put_self k v d = rw (get-put, eq_refl)

  pub get-put_ne : (j k : String) (v : V) (d : Dict V) → k ≢ j → get j (put k v d) ≡ get j d
  get-put_ne j k v d h = rw get-put (ground (arith, eq_iff k j))

-- A property of every entry that is found.
abbrev pub Each {ℓ κ} : {V : Type ℓ} → (String → V → Type κ) → Dict V → Type (ℓ ⊔ κ)
Each {V} P d = (k : String) (v : V) → get k d ≡ some v → P k v

pub Each-put {ℓ κ} :
    {V : Type ℓ} (P : String → V → Type κ) (k : String) (v : V) (d : Dict V)
    → P k v
    → Each P d
    → Each P (put k v d)
Each-put P k v d p h j w e = elim (Bool-cases (str_eq k j)) [
  | inl same ↦ subst₂ P ((eq_iff k j).0 same) (some_inj (sym (unchanged same) ∙ e)) p
  | inr other ↦ h j w (sym (skipped other) ∙ e)
]
  where
    unchanged : str_eq k j ≡ true → get j (put k v d) ≡ some v
    unchanged same = rw (get-put, same)

    skipped : str_eq k j ≡ false → get j (put k v d) ≡ get j d
    skipped other = rw (get-put, other)
