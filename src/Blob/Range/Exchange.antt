-- ===== src/Blob/Range/Exchange.antt =====
-- The range requests of the HTTP fetcher against the answers of the registry.
use pony_downloader.Common.{
  ℕ, ℤ, pos, negsuc, ◌+ℤ◌, ◌-ℤ◌, -ℤ_parts, eq_of_parts, ltb_ℤ, leb_ℤ, true, false, [], ◌∷◌, ◌++◌,
  Option, none, some, ◌==◌, if_cases, ◌≡◌, refl, ap, ◌∙◌, arith, ◌-◌, ◌≤◌, ◌<◌, ◌^◌, min,
}
use pony_downloader.Common.Text.{Bytes, codes, format_int, parse_int, number, is_empty}
use pony_downloader.Common.Text.Split.{lacks, cut-append, strip_prefix-append}
use pony_downloader.Common.Text.Decimal.{format_int-lacks, number-format_int}
use pony_downloader.Http.Range.{format_range_header, accepts, validate_range_response}
use pony_downloader.Http.Range.Validation.{range_of, spelled, read_fields-spelled}
use pony_downloader.Blob.Range.{
  ranged, clamp_end, read_end, read_start, read_range, parse_range, SizeHeaders, write_headers,
}

digits_no_dash : (n : ℕ) → lacks (λ c. c == b'-') (format_int n) ≡ true
digits_no_dash n = format_int-lacks (λ c. c == b'-') n (λ c h. ground (arith, h))

-- a number has a digit
format_int-not_empty : (n : ℕ) → n < 2 ^ 63 → is_empty (format_int n) ≡ false
unfolding parse_int
format_int-not_empty n h = cases (format_int n) (number-format_int n h)
  where
    cases : (s : Bytes) → number s ≡ some (pos n) → is_empty s ≡ false
    cases [] e = absurd (ground (arith, e))
    cases (c ∷ s) e = refl

read_start-format_int :
    (s n : ℕ) (last : Bytes)
    → s < n
    → n < 2 ^ 63
    → read_start (pos n) (format_int s) last ≡ read_end (pos s) (pos n) last
read_start-format_int s n last h m =
    rw
      (
        format_int-not_empty s (omega (arith, h, m)),
        number-format_int s (omega (arith, h, m)),
        read_start,
      )
      (ground (arith, h))

read_end-format_int :
    (s e n : ℕ)
    → s ≤ e
    → s < n
    → e < 2 ^ 63
    → read_end (pos s) (pos n) (format_int e) ≡ ranged (pos s) (pos (min e (n - 1)))
read_end-format_int s e n h l m =
    rw (format_int-not_empty e m, number-format_int e m, read_end)
      (if_cases (λ r. r ≡ ranged (pos s) (pos (min e (n - 1)))) (ltb_ℤ (pos e) (pos s)) _ _
        (λ b. absurd (ground (arith, b, h)))
        (λ _. ap (ranged (pos s)) (clamped e n (omega (arith, l)))))
  where
    clamped : (e n : ℕ) → 0 < n → clamp_end (pos n) (pos e) ≡ pos (min e (n - 1))
    clamped e n p =
        if_cases (λ r. r ≡ pos (min e (n - 1))) (leb_ℤ (pos n) (pos e)) _ _
          (λ b. eq_of_parts _ _ (ground (arith, b, -ℤ_parts (pos n) (pos 1))))
          (λ b. ap pos (ground (arith, b)))

-- A request for the bytes from s to e of a source of n bytes is read as the bytes from s to e, or to
-- the last byte if e is behind it.
pub parse_range-format_range_header :
    (s e n : ℕ)
    → s ≤ e
    → s < n
    → e < 2 ^ 63
    → n < 2 ^ 63
    → parse_range (format_range_header (pos s) (some (pos e))) (pos n) true
      ≡ ranged (pos s) (pos (min e (n - 1)))
unfolding parse_range
parse_range-format_range_header s e n h l me mn =
    if_cases (λ r. r ≡ ranged (pos s) (pos (min e (n - 1)))) (leb_ℤ (pos n) (pos 0)) _ _
      (λ b. absurd (ground (arith, b, l)))
      (λ _.
        ap (read_range (pos n))
          (strip_prefix-append (codes "bytes=") (format_int s ++ b'-' ∷ format_int e))
        ∙ rw (cut-append b'-' (format_int s) (format_int e) (digits_no_dash s), read_range)
            (read_start-format_int s n (format_int e) l mn ∙ read_end-format_int s e n h l me))

-- the checks of the fetcher on the headers of an answer
abbrev pub validate_headers : SizeHeaders → ℤ → Option ℤ → ℤ → Option (ℤ × ℤ)
validate_headers h start end size = elim h.content_range [
  | none ↦ none
  | some text ↦
      validate_range_response text (elim h.content_length [ none ↦ negsuc 0 | some l ↦ l ]) start
        end size
]

validate_spelled :
    (s e n : ℕ)
    → s ≤ e
    → e < n
    → n < 2 ^ 63
    → validate_range_response
        (codes "bytes " ++ spelled s e n)
        (pos e -ℤ pos s +ℤ pos 1)
        (pos s)
        (some (pos e))
        (pos n)
      ≡ some (pos e -ℤ pos s +ℤ pos 1, pos n)
unfolding validate_range_response
validate_spelled s e n h l m =
    rw (read_fields-spelled s e n h l m, validate_range_response)
      (if_cases (λ r. r ≡ some (pos e -ℤ pos s +ℤ pos 1, pos n))
        (accepts (pos s) (some (pos e)) (pos n) (pos e -ℤ pos s +ℤ pos 1) (range_of s e n)) _ _
        (λ _. refl) (λ b. absurd (ground (arith, b))))

-- The fetcher asks a source of n bytes for those from s to e, and e is one of them: it accepts the
-- answer, which has e - s + 1 bytes of n.
pub exchange_lem :
    (s e n : ℕ)
    → s ≤ e
    → e < n
    → n < 2 ^ 63
    → validate_headers
        (write_headers
          (pos n)
          (parse_range (format_range_header (pos s) (some (pos e))) (pos n) true))
        (pos s)
        (some (pos e))
        (pos n)
      ≡ some (pos e -ℤ pos s +ℤ pos 1, pos n)
unfolding write_headers
exchange_lem s e n h l m =
    let last : min e (n - 1) ≡ e = omega (arith, l) in
    rw
      (
        parse_range-format_range_header s e n h (omega (arith, h, l)) (omega (arith, l, m)) m,
        last,
        write_headers,
      )
      (if_cases
        (λ r.
          validate_headers r (pos s) (some (pos e)) (pos n) ≡ some (pos e -ℤ pos s +ℤ pos 1, pos n))
        (ltb_ℤ (pos 0) (pos n)) _ _ (λ _. validate_spelled s e n h l m)
        (λ b. absurd (ground (arith, b, l))))
