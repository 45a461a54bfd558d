-- ===== src/Prelude/Digits.antt =====
-- A number written out in a base of at most sixteen, as Python's `format(n, "x")` and `str(n)` do, and
-- read back.
use Prim.Native.Char.{Char, code}
use Prim.Native.Nat.{ℕ, zero, suc, ◌+◌, ◌-◌, ◌*◌, ◌/◌, ◌%◌, ◌≤◌, ◌<◌}
use Prim.Native.String.{String, [], ◌∷◌, char_at}
use mathlib.Core.Path.{◌≡◌, refl, ap, ◌∙◌}
use mathlib.Core.Logic.{inl, inr}
use mathlib.Core.Bool.{Bool, true, false}
use native.Mathlib.Omega.{arith}
use native.Mathlib.Nat.{div-lt_self, div-add-mod', mod-lt}
use pj_clusterintent.Prelude.Lines.{all_chars}
use pj_clusterintent.Prelude.Tests.{ltb, leb, if◌then◌else◌, Bool-cases}

unfoldable pub digit : ℕ → Char
digit d = char_at "0123456789abcdef" d

unfoldable pub digit_value : ℕ → ℕ
digit_value c = if leb c 57 then c - 48 else c - 87

-- The digits of `n` in front of the text, on fuel that bounds `n`.
unfoldable pub write_digits : (fuel base : ℕ) → ℕ → String → String
unfolding digit
write_digits zero base n after = after
write_digits (suc fuel) base n after =
    let longer = write_digits fuel base (n / base) (digit (n % base) ∷ after) in
    if ltb n base then digit n ∷ after else longer

unfoldable pub in_base : ℕ → ℕ → String
unfolding write_digits
in_base base n = write_digits (suc n) base n ""

unfoldable pub read_digits : ℕ → ℕ → String → ℕ
unfolding digit_value
read_digits base acc [] = acc
read_digits base acc (c ∷ s) = read_digits base (acc * base + digit_value (code c)) s

pub code-digit : (d : ℕ) → d < 16 → code (digit d) ≡ (if ltb d 10 then 48 + d else 87 + d)
unfolding digit
code-digit zero h = refl
code-digit (suc zero) h = refl
code-digit (suc (suc zero)) h = refl
code-digit (suc (suc (suc zero))) h = refl
code-digit (suc (suc (suc (suc zero)))) h = refl
code-digit (suc (suc (suc (suc (suc zero))))) h = refl
code-digit (suc (suc (suc (suc (suc (suc zero)))))) h = refl
code-digit (suc (suc (suc (suc (suc (suc (suc zero))))))) h = refl
code-digit (suc (suc (suc (suc (suc (suc (suc (suc zero)))))))) h = refl
code-digit (suc (suc (suc (suc (suc (suc (suc (suc (suc zero))))))))) h = refl
code-digit (suc (suc (suc (suc (suc (suc (suc (suc (suc (suc zero)))))))))) h = refl
code-digit (suc (suc (suc (suc (suc (suc (suc (suc (suc (suc (suc zero))))))))))) h = refl
code-digit (suc (suc (suc (suc (suc (suc (suc (suc (suc (suc (suc (suc zero)))))))))))) h = refl
code-digit (suc (suc (suc (suc (suc (suc (suc (suc (suc (suc (suc (suc (suc zero))))))))))))) h =
    refl
code-digit (suc (suc (suc (suc (suc (suc (suc (suc (suc (suc (suc (suc (suc (suc zero))))))))))))))
      h =
    refl
code-digit
      (suc (suc (suc (suc (suc (suc (suc (suc (suc (suc (suc (suc (suc (suc (suc zero)))))))))))))))
      h =
    refl
code-digit
      (suc
        (suc (suc (suc (suc (suc (suc (suc (suc (suc (suc (suc (suc (suc (suc (suc n))))))))))))))))
      h =
    omega arith

digit_value-digit : (d : ℕ) → d < 16 → digit_value (code (digit d)) ≡ d
unfolding digit_value
digit_value-digit d h = ground (arith, code-digit d h)

below : (d bound : ℕ) → d < bound → bound ≤ 16 → d < 16
below d bound h k = omega arith

module _ (base : ℕ) (small : base ≤ 16) (large : 1 < base) where
  last_digit : (n : ℕ) → n / base * base + digit_value (code (digit (n % base))) ≡ n
  last_digit n =
      rw (digit_value-digit (n % base) (below (n % base) base (mod-lt n (omega arith)) small))
        (div-add-mod' n base)

  read_digits-write_digits :
      (fuel n : ℕ) (after : String)
      → n < fuel
      → read_digits base 0 (write_digits fuel base n after) ≡ read_digits base n after
  unfolding write_digits read_digits
  read_digits-write_digits zero n after h = omega arith
  read_digits-write_digits (suc fuel) n after h = elim (Bool-cases (ltb n base)) [
    | inl e ↦ rw e (
        ap (λ v. read_digits base v after)
          (omega (arith, digit_value-digit n (below n base (ground arith) small))))
    | inr e ↦ rw e (
        read_digits-write_digits fuel (n / base) (digit (n % base) ∷ after) (shorter e)
        ∙ ap (λ v. read_digits base v after) (last_digit n))
  ]
    where
      shorter : ltb n base ≡ false → n / base < fuel
      shorter e = omega (arith, div-lt_self {n = n} {k = base} (ground arith) large)

  pub read_digits-in_base : (n : ℕ) → read_digits base 0 (in_base base n) ≡ n
  unfolding in_base read_digits
  read_digits-in_base n = read_digits-write_digits (suc n) n "" (omega arith)

test_in_base : in_base 16 48879 ≡ "beef"
unfolding in_base
test_in_base = refl

-- What holds of every digit holds of every character of a number.
module _ (p : ℕ → Bool) (base : ℕ) (small : base ≤ 16) (large : 1 < base)
    (digits : (d : ℕ) → d < 16 → p (code (digit d)) ≡ true) where
  all_chars-write_digits :
      (fuel n : ℕ) (after : String)
      → n < fuel
      → all_chars p after ≡ true
      → all_chars p (write_digits fuel base n after) ≡ true
  unfolding write_digits
  all_chars-write_digits zero n after h k = absurd (omega arith)
  all_chars-write_digits (suc fuel) n after h k = elim (Bool-cases (ltb n base)) [
    | inl e ↦ rw (e, digits n (below n base (ground arith) small)) k
    | inr e ↦ rw e (
        all_chars-write_digits fuel (n / base) (digit (n % base) ∷ after)
          (omega (arith, div-lt_self {n = n} {k = base} (ground arith) large))
          (rw (digits (n % base) (below (n % base) base (mod-lt n (omega arith)) small)) k))
  ]

  pub all_chars-in_base : (n : ℕ) → all_chars p (in_base base n) ≡ true
  unfolding in_base
  all_chars-in_base n = all_chars-write_digits (suc n) n "" (omega arith) refl
