-- ===== src/Ca/Serial.antt =====
-- `serial_number_to_hex` of cagent/src/cagent_api/ca.py, and the bytes of a certificate's serial number.
use Prim.Native.Char.{Char}
use Prim.Native.String
use Prim.Native.String.append
use Prim.Native.String.count
use pj_clusterintent.Prelude.{
  ℕ, String, Bool, true, false, zero, suc, ◌+◌, ◌/◌, ◌%◌, ◌<◌, ◌≤◌, ◌==◌, ltb, leb, if◌then◌else◌,
  ◌≡◌, refl, sym, ap, ◌∙◌, inl, inr, arith, Bool-cases, str_eq,
}
use pj_clusterintent.Prelude.WordLaws.{not_empty}
use pj_clusterintent.Prelude.Digits.{digit, write_digits, in_base}
use pj_clusterintent.Prelude.Text.{lower, lower_char}

abbrev is_odd : ℕ → Bool
is_odd n = n % 2 == 1

unfoldable pub serial_number_to_hex : ℕ → String
serial_number_to_hex serial_number =
    let hex_str = in_base 16 serial_number in
    if is_odd (String.count hex_str) then String.◌∷◌ "0" hex_str else hex_str

-- The same number byte by byte, each byte as two digits of the given alphabet, the first byte not zero
-- unless it is the only one: how OpenSSL prints the bytes of a DER integer.
abbrev byte_digits : (ℕ → Char) → ℕ → String → String
byte_digits alphabet byte after =
    String.◌∷◌ (alphabet (byte / 16)) (String.◌∷◌ (alphabet (byte % 16)) after)

unfoldable pub write_bytes : (ℕ → Char) → (fuel : ℕ) → ℕ → String → String
write_bytes alphabet zero n after = after
write_bytes alphabet (suc fuel) n after =
    let longer = write_bytes alphabet fuel (n / 256) (byte_digits alphabet (n % 256) after) in
    if ltb n 256 then byte_digits alphabet n after else longer

unfoldable pub bytes_hex : (ℕ → Char) → ℕ → String
bytes_hex alphabet n = write_bytes alphabet (suc n) n ""

unfoldable pub capital_digit : ℕ → Char
capital_digit d = String.char_at "0123456789ABCDEF" d

-- How many digits `write_digits` puts in front.
unfoldable digit_count : (fuel : ℕ) → ℕ → ℕ
digit_count zero n = 0
digit_count (suc fuel) n = let more = digit_count fuel (n / 16) in if ltb n 16 then 1 else suc more

count-write_digits :
    (fuel n : ℕ) (after : String)
    → String.count (write_digits fuel 16 n after) ≡ digit_count fuel n + String.count after
unfolding write_digits digit_count
count-write_digits zero n after = omega arith
count-write_digits (suc fuel) n after = elim (Bool-cases (ltb n 16)) [
  | inl e ↦ rw (e, count.cons) (omega arith)
  | inr e ↦ rw e (
      count-write_digits fuel (n / 16) (String.◌∷◌ (digit (n % 16)) after)
      ∙ rw count.cons (omega arith))
]

abbrev padded : (odd : Bool) → String → String
padded odd s = if odd then String.◌∷◌ "0" s else s

is_odd-add_two : (n : ℕ) → is_odd (suc (suc n)) ≡ is_odd n
is_odd-add_two n = ap (λ m. m == 1) (omega arith)

write_digits-two :
    (f n : ℕ) (after : String)
    → leb 256 n ≡ true
    → (digit_count (suc (suc f)) n ≡ suc (suc (digit_count f (n / 256))))
      × (write_digits (suc (suc f)) 16 n after
          ≡ write_digits f 16 (n / 256) (byte_digits digit (n % 256) after))
unfolding digit_count write_digits
write_digits-two f n after h =
    let e : ltb n 16 ≡ false = ground arith in
    let d : ltb (n / 16) 16 ≡ false = ground arith in
    let q : n / 16 / 16 ≡ n / 256 = omega arith in
    let high : n / 16 % 16 ≡ n % 256 / 16 = omega arith in
    let low : n % 16 ≡ n % 256 % 16 = omega arith in
    (rw (e, d, q) refl, rw (e, d, q, high, low) refl)

one_byte :
    (f n : ℕ) (after : String)
    → ltb n 256 ≡ true
    → byte_digits digit n after
      ≡ padded (is_odd (digit_count (suc (suc f)) n)) (write_digits (suc (suc f)) 16 n after)
unfolding digit_count write_digits
one_byte f n after e = elim (Bool-cases (ltb n 16)) [
  | inl small ↦
      let high : n / 16 ≡ 0 = omega (arith, small_of n small) in
      let low : n % 16 ≡ n = omega (arith, small_of n small) in
      rw (small, high, low) (unfold digit in refl)
  | inr large ↦ let one : ltb (n / 16) 16 ≡ true = ground arith in rw (large, one) refl
]
  where
    small_of : (m : ℕ) → ltb m 16 ≡ true → m < 16
    small_of m h = ground arith

write_bytes-padded :
    (g f n : ℕ) (after : String)
    → n < g
    → n < f
    → write_bytes digit g n after ≡ padded (is_odd (digit_count f n)) (write_digits f 16 n after)
unfolding write_bytes
write_bytes-padded zero f n after h k = absurd (omega arith)
write_bytes-padded (suc g) zero n after h k = absurd (omega arith)
write_bytes-padded (suc g) (suc zero) n after h k =
    let z : n ≡ 0 = omega arith in rw z (unfold digit digit_count write_digits in refl)
write_bytes-padded (suc g) (suc (suc f)) n after h k = elim (Bool-cases (ltb n 256)) [
  | inl e ↦ rw e (one_byte f n after e)
  | inr e ↦
      let big : 256 ≤ n = ground arith in
      let (count, digits) = write_digits-two f n after (ground arith) in
      rw (e, count, digits, is_odd-add_two (digit_count f (n / 256)))
        (write_bytes-padded g f (n / 256) (byte_digits digit (n % 256) after) (omega arith)
          (omega arith))
]

count-in_base : (n : ℕ) → String.count (in_base 16 n) ≡ digit_count (suc n) n
unfolding in_base
count-in_base n = count-write_digits (suc n) n "" ∙ omega arith

-- The text of a serial number is its bytes, each as two digits.
pub serial_number_to_hex-bytes_hex :
    (serial_number : ℕ) → serial_number_to_hex serial_number ≡ bytes_hex digit serial_number
unfolding serial_number_to_hex bytes_hex in_base write_digits
serial_number_to_hex-bytes_hex n =
    rw (count-in_base n) (sym (write_bytes-padded (suc n) (suc n) n "" (omega arith) (omega arith)))

lower-capital_digit : (d : ℕ) → d < 16 → lower_char (capital_digit d) ≡ digit d
unfolding lower_char capital_digit digit
lower-capital_digit zero h = refl
lower-capital_digit (suc zero) h = refl
lower-capital_digit (suc (suc zero)) h = refl
lower-capital_digit (suc (suc (suc zero))) h = refl
lower-capital_digit (suc (suc (suc (suc zero)))) h = refl
lower-capital_digit (suc (suc (suc (suc (suc zero))))) h = refl
lower-capital_digit (suc (suc (suc (suc (suc (suc zero)))))) h = refl
lower-capital_digit (suc (suc (suc (suc (suc (suc (suc zero))))))) h = refl
lower-capital_digit (suc (suc (suc (suc (suc (suc (suc (suc zero)))))))) h = refl
lower-capital_digit (suc (suc (suc (suc (suc (suc (suc (suc (suc zero))))))))) h = refl
lower-capital_digit (suc (suc (suc (suc (suc (suc (suc (suc (suc (suc zero)))))))))) h = refl
lower-capital_digit (suc (suc (suc (suc (suc (suc (suc (suc (suc (suc (suc zero))))))))))) h = refl
lower-capital_digit (suc (suc (suc (suc (suc (suc (suc (suc (suc (suc (suc (suc zero)))))))))))) h =
    refl
lower-capital_digit
      (suc (suc (suc (suc (suc (suc (suc (suc (suc (suc (suc (suc (suc zero))))))))))))) h =
    refl
lower-capital_digit
      (suc (suc (suc (suc (suc (suc (suc (suc (suc (suc (suc (suc (suc (suc zero)))))))))))))) h =
    refl
lower-capital_digit
      (suc (suc (suc (suc (suc (suc (suc (suc (suc (suc (suc (suc (suc (suc (suc zero)))))))))))))))
      h =
    refl
lower-capital_digit
      (suc
        (suc (suc (suc (suc (suc (suc (suc (suc (suc (suc (suc (suc (suc (suc (suc n))))))))))))))))
      h =
    absurd (omega arith)

lower-byte_digits :
    (byte : ℕ) (after : String)
    → byte < 256
    → lower (byte_digits capital_digit byte after) ≡ byte_digits digit byte (lower after)
unfolding lower
lower-byte_digits byte after h =
    rw
      (lower-capital_digit (byte / 16) (omega arith), lower-capital_digit (byte % 16) (omega arith))
      refl

lower-write_bytes :
    (fuel n : ℕ) (after : String)
    → lower (write_bytes capital_digit fuel n after) ≡ write_bytes digit fuel n (lower after)
unfolding write_bytes
lower-write_bytes zero n after = refl
lower-write_bytes (suc fuel) n after = elim (Bool-cases (ltb n 256)) [
  | inl e ↦ rw e (lower-byte_digits n after (ground arith))
  | inr e ↦ rw e (
      lower-write_bytes fuel (n / 256) (byte_digits capital_digit (n % 256) after)
      ∙ ap (write_bytes digit fuel (n / 256)) (lower-byte_digits (n % 256) after (omega arith)))
]

-- The bytes of a serial number in capital digits, as OpenSSL prints them, are in small letters just what
-- `serial_number_to_hex` writes, leading zero included.
pub lower-bytes_hex :
    (serial_number : ℕ)
    → lower (bytes_hex capital_digit serial_number) ≡ serial_number_to_hex serial_number
unfolding bytes_hex lower
lower-bytes_hex n = lower-write_bytes (suc n) n "" ∙ sym (serial_number_to_hex-bytes_hex n)

write_bytes-cons :
    (alphabet : ℕ → Char) (fuel n : ℕ) (c : Char) (s : String)
    → str_eq (write_bytes alphabet fuel n (String.◌∷◌ c s)) "" ≡ false
unfolding write_bytes
write_bytes-cons alphabet zero n c s = not_empty c s
write_bytes-cons alphabet (suc fuel) n c s = elim (Bool-cases (ltb n 256)) [
  | inl e ↦ rw e (not_empty (alphabet (n / 16)) _)
  | inr e ↦ rw e (write_bytes-cons alphabet fuel (n / 256) (alphabet (n % 256 / 16)) _)
]

pub bytes_hex-not_empty : (alphabet : ℕ → Char) (n : ℕ) → str_eq (bytes_hex alphabet n) "" ≡ false
unfolding bytes_hex write_bytes
bytes_hex-not_empty alphabet n = elim (Bool-cases (ltb n 256)) [
  | inl e ↦ rw e (not_empty (alphabet (n / 16)) _)
  | inr e ↦ rw e (write_bytes-cons alphabet n (n / 256) (alphabet (n % 256 / 16)) _)
]
