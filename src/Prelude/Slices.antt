-- ===== src/Prelude/Slices.antt =====
-- Python's integers as bounds of a slice.
use Prim.Native.Nat.{ℕ, suc, ◌-◌}
use mathlib.Core.List.{List}
use pj_clusterintent.Prelude.Lists.{length, take}

pub data ℤ : Type 0 where
  pos negsuc : ℕ → ℤ

-- `xs[:n]`, which for a negative `n` is all but the last `-n`
abbrev pub up_to {ℓ} : {A : Type ℓ} → ℤ → List A → List A
up_to (ℤ.pos n) xs = take n xs
up_to (ℤ.negsuc n) xs = take (length xs - suc n) xs
