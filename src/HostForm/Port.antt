-- ===== src/HostForm/Port.antt =====
-- The probe's port in web/src/components/HostForm.tsx: printed into the field and read back.
use lab_keeper.Common.{
  Bool-cases, Option, Text, [], ap, arith, decimal, decimal_from, inl, inr, is_space, leb, ltb,
  ltb→lt, none, or_else, refl, some, suc, sym, trim_start, true, zero, ℕ, ◌%◌, ◌&&◌, ◌*◌, ◌+◌, ◌-◌,
  ◌/◌, ◌<◌, ◌∙◌, ◌∷◌, ◌≡◌, ◌≤◌,
}
use lab_keeper.HostForm.{digits_value, signed_value, parse_int}

digit_step :
    (acc : Option ℕ) (d : ℕ) (s : Text)
    → d < 10
    → digits_value acc ((b'0' + d) ∷ s) ≡ digits_value (some (or_else acc 0 * 10 + d)) s
unfolding digits_value
digit_step acc d s h =
    let value : or_else acc 0 * 10 + (b'0' + d - b'0') ≡ or_else acc 0 * 10 + d = omega arith in
    let shown : (leb b'0' (b'0' + d) && leb (b'0' + d) b'9') ≡ true = ground arith in
    rw (shown, value) refl

digits_value-decimal_from :
    (fuel n : ℕ) (rest : Text)
    → n < fuel
    → digits_value none (decimal_from fuel n rest) ≡ digits_value (some n) rest
unfolding decimal_from
digits_value-decimal_from zero n rest h = elim h [ ]
digits_value-decimal_from (suc fuel) n rest h = elim (Bool-cases (ltb n 10)) [
  | inl small ↦ rw small (
      digit_step none n rest (ltb→lt n 10 small)
      ∙ ap (λ v. digits_value (some v) rest) (omega arith))
  | inr large ↦ rw large (
      digits_value-decimal_from fuel (n / 10) ((b'0' + n % 10) ∷ rest) (ground arith)
      ∙ digit_step (some (n / 10)) (n % 10) rest (omega arith)
      ∙ ap (λ v. digits_value (some v) rest) (omega arith))
]

-- The printed number begins with a digit.
decimal_from-head :
    (fuel n : ℕ) (rest : Text)
    → n < fuel
    → (c : ℕ) × (s : Text) × (decimal_from fuel n rest ≡ c ∷ s) × (b'0' ≤ c) × (c ≤ b'9')
unfolding decimal_from
decimal_from-head zero n rest h = elim h [ ]
decimal_from-head (suc fuel) n rest h = elim (Bool-cases (ltb n 10)) [
  | inl small ↦ (b'0' + n, rest, rw small, omega arith, omega (arith, ltb→lt n 10 small))
  | inr large ↦ rw large (decimal_from-head fuel (n / 10) ((b'0' + n % 10) ∷ rest) (ground arith))
]

digit_kept : (c : ℕ) (s : Text) → b'0' ≤ c → c ≤ b'9' → trim_start (c ∷ s) ≡ c ∷ s
unfolding trim_start is_space
digit_kept c s h k = ground arith

digit_unsigned :
    (c : ℕ) (s : Text) → b'0' ≤ c → c ≤ b'9' → signed_value (c ∷ s) ≡ digits_value none (c ∷ s)
digit_unsigned c s h k = ground arith

parse_digits :
    (c : ℕ) (s : Text) → b'0' ≤ c → c ≤ b'9' → parse_int (c ∷ s) ≡ digits_value none (c ∷ s)
unfolding parse_int
parse_digits c s h k = ap signed_value (digit_kept c s h k) ∙ digit_unsigned c s h k

no_digits : (n : ℕ) → digits_value (some n) [] ≡ some n
unfolding digits_value
no_digits n = refl

-- A port that is printed into the form's field is read back as the same number.
pub parse_int-decimal : (n : ℕ) → parse_int (decimal n) ≡ some n
unfolding decimal
parse_int-decimal n =
    let (c, s, e, low, high) = decimal_from-head (suc n) n [] (omega arith) in
    ap parse_int e
    ∙ parse_digits c s low high
    ∙ ap (digits_value none) (sym e)
    ∙ digits_value-decimal_from (suc n) n [] (omega arith)
    ∙ no_digits n
