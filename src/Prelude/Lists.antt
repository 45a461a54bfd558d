-- ===== src/Prelude/Lists.antt =====
-- Lists measured by native numbers, and predicates on lists that the tactics take apart.
use Prim.Native.Nat.{ℕ, zero, suc, ◌+◌, ◌-◌}
use mathlib.Core.Path.{◌≡◌, refl, sym, ◌∙◌, subst}
use mathlib.Core.Logic.{◌⊎◌, inl, inr}
use mathlib.Core.Bool.{Bool, false, ◌||◌}
use mathlib.Core.List.{List, [], ◌∷◌, ◌++◌, foldl, reverse, reverse-cons, foldl-append}
use native.Mathlib.Omega.{arith}

module _ {ℓ} {A : Type ℓ} where
  abbrev pub length : List A → ℕ
  length [] = 0
  length (x ∷ xs) = suc (length xs)

  pub length-append : (xs ys : List A) → length (xs ++ ys) ≡ length xs + length ys
  length-append [] ys = omega arith
  length-append (x ∷ xs) ys = omega (arith, length-append xs ys)

  abbrev pub any : (A → Bool) → List A → Bool
  any p [] = false
  any p (x ∷ xs) = p x || any p xs

  abbrev pub drop : ℕ → List A → List A
  drop zero xs = xs
  drop (suc n) [] = []
  drop (suc n) (x ∷ xs) = drop n xs

  abbrev pub take : ℕ → List A → List A
  take zero xs = []
  take (suc n) [] = []
  take (suc n) (x ∷ xs) = x ∷ take n xs

  -- `xs[-n:]` for a positive `n`
  abbrev pub last_n : ℕ → List A → List A
  last_n n xs = drop (length xs - n) xs

  pub length-drop : (n : ℕ) (xs : List A) → length (drop n xs) ≡ length xs - n
  length-drop zero xs = omega arith
  length-drop (suc n) [] = omega arith
  length-drop (suc n) (x ∷ xs) = omega (arith, length-drop n xs)

abbrev pub All {ℓ κ} : {A : Type ℓ} → (A → Type κ) → List A → Type κ
All P [] = Unit
All P (x ∷ xs) = P x × All P xs

module _ {ℓ κ} {A : Type ℓ} (P : A → Type κ) where
  pub All-append : (earlier later : List A) → All P earlier → All P later → All P (earlier ++ later)
  All-append (x ∷ xs) later (h, hs) after = (h, All-append xs later hs after)
  All-append [] later _ after = after

-- Membership by recursion, which the tactics take apart.
abbrev pub Among : {A : Type 0} → A → List A → Type 0
Among a [] = ⊥
Among a (x ∷ xs) = (a ≡ x) ⊎ Among a xs

pub Among-append_last : {A : Type 0} (a : A) (xs : List A) → Among a (xs ++ a ∷ [])
Among-append_last a [] = inl refl
Among-append_last a (x ∷ xs) = inr (Among-append_last a xs)

pub All-among {ℓ} :
    {A : Type 0} (P : A → Type ℓ) (xs : List A) {a : A} → All P xs → Among a xs → P a
All-among P [] _ m = elim m [ ]
All-among P (x ∷ xs) (h, _) (inl e) = subst P (sym e) h
All-among P (x ∷ xs) (_, h) (inr m) = All-among P xs h m

pub length-reverse {ℓ} : {A : Type ℓ} (xs : List A) → length (reverse xs) ≡ length xs
length-reverse [] = refl
length-reverse (x ∷ xs) =
    rw reverse-cons (length-append (reverse xs) (x ∷ []) ∙ omega (arith, length-reverse xs))

-- Folding a log that is given newest first.
pub foldl-reverse {ℓ κ} :
    {A : Type ℓ} {B : Type κ} (f : B → A → B) (b : B) (x : A) (xs : List A)
    → foldl f b (reverse (x ∷ xs)) ≡ f (foldl f b (reverse xs)) x
foldl-reverse f b x xs = rw (reverse-cons, foldl-append)
