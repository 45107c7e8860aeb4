-- ===== src/Common/Text/Decimal.antt =====
-- Numbers and their decimal digits.
use Prim.Native.Nat.{ℕ, zero, suc, ◌+◌, ◌/◌, ◌%◌, ◌^◌, ◌<◌}
use mathlib.Core.Path.{◌≡◌, refl, ap, ◌∙◌}
use mathlib.Core.Logic.{inl, inr}
use mathlib.Core.Bool.{Bool, true, false, not}
use mathlib.Core.Option.{some}
use mathlib.Core.List.{[], ◌∷◌}
use native.Mathlib.Omega.{arith}
use pony_downloader.Common.Tests.{◌==◌, Bool-cases, if_cases}
use pony_downloader.Common.Int.{pos}
use pony_downloader.Common.Text.{
  Bytes, is_digit, scanned, scan, parse_uint, parsed, signed, parse_int, digits, format_int, number,
}
use pony_downloader.Common.Text.Split.{lacks, lacks-weaken}

-- The number has at most `fuel` digits.
Fits : ℕ → ℕ → Type 0
Fits zero n = n ≡ 0
Fits (suc fuel) n = Fits fuel (n / 10)

scan_last : (n : ℕ) (out : Bytes) → n < 2 ^ 63 → scan ((b'0' + n % 10) ∷ out) (n / 10) ≡ scan out n
unfolding scan
scan_last n out h = ground arith

scan-digits :
    (fuel n : ℕ) (out : Bytes) → n < 2 ^ 63 → Fits fuel n → scan (digits fuel n out) 0 ≡ scan out n
unfolding digits Fits
scan-digits zero n out h f = rw f refl
scan-digits (suc fuel) n out h f = elim (Bool-cases (n == 0)) [
  | inl e ↦ let z : 0 ≡ n = ground (arith, e) in rw (e, digits) (ap (scan out) z)
  | inr e ↦
      rw (e, digits)
        (scan-digits fuel (n / 10) ((b'0' + n % 10) ∷ out) (omega (arith, h)) f ∙ scan_last n out h)
]

Fits-19 : (n : ℕ) → n < 2 ^ 63 → Fits 19 n
unfolding Fits
Fits-19 n h = omega (arith, h)

abbrev pub all_digits : Bytes → Bool
all_digits = lacks (λ c. not (is_digit c))

digits-all_digits :
    (fuel n : ℕ) (out : Bytes) → all_digits out ≡ true → all_digits (digits fuel n out) ≡ true
unfolding digits
digits-all_digits zero n out h = h
digits-all_digits (suc fuel) n out h = elim (Bool-cases (n == 0)) [
  | inl e ↦ rw (e, digits) h
  | inr e ↦
      rw (e, digits) (digits-all_digits fuel (n / 10) ((b'0' + n % 10) ∷ out) (ground (arith, h)))
]

pub format_int-all_digits : (n : ℕ) → all_digits (format_int n) ≡ true
unfolding format_int
format_int-all_digits n =
    if_cases (λ s. all_digits s ≡ true) (n == 0) _ _ (λ _. refl)
      (λ _. digits-all_digits 19 n [] refl)

read_digits :
    (s : Bytes) (n : ℕ)
    → all_digits s ≡ true
    → scan s 0 ≡ scanned n
    → 0 < n
    → n < 2 ^ 63
    → parse_int s ≡ parsed (pos n)
unfolding scan parse_int parse_uint signed
read_digits [] n d e l h = absurd (ground (arith, e, l))
read_digits (c ∷ s) n d e l h =
    let plus : (c == b'+') ≡ false = ground (arith, d) in
    let minus : (c == b'-') ≡ false = ground (arith, d) in rw (plus, minus, e) (ground (arith, h))

scan_end : (n : ℕ) → scan [] n ≡ scanned n
unfolding scan
scan_end n = refl

read_zero : (n : ℕ) → n ≡ 0 → parse_int (b'0' ∷ []) ≡ parsed (pos n)
unfolding parse_int parse_uint scan signed
read_zero n e = rw e refl

-- A number below 2^63 is read back from its decimal digits.
pub parse_int-format_int : (n : ℕ) → n < 2 ^ 63 → parse_int (format_int n) ≡ parsed (pos n)
unfolding format_int
parse_int-format_int n h =
    if_cases (λ s. parse_int s ≡ parsed (pos n)) (n == 0) _ _ (λ e. read_zero n (ground (arith, e)))
      λ e.
        read_digits (digits 19 n []) n (digits-all_digits 19 n [] refl)
          (scan-digits 19 n [] h (Fits-19 n h) ∙ scan_end n) (ground (arith, e)) h

-- A test that no digit passes.
pub format_int-lacks :
    (test : ℕ → Bool) (n : ℕ)
    → ((c : ℕ) → is_digit c ≡ true → test c ≡ false)
    → lacks test (format_int n) ≡ true
format_int-lacks test n w =
    lacks-weaken (λ c. not (is_digit c)) test (format_int n) (λ c h. w c (ground (arith, h)))
      (format_int-all_digits n)

pub number-format_int : (n : ℕ) → n < 2 ^ 63 → number (format_int n) ≡ some (pos n)
number-format_int n h = rw (parse_int-format_int n h, number) refl
