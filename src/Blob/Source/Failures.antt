-- ===== src/Blob/Source/Failures.antt =====
-- Which sequences of failed and successful reads break a source.
use pony_downloader.Common.{
  ℕ, ◌≤◌, ◌≡◌, refl, ◌∙◌, Bool, true, false, ◌&&◌, ◌||◌, List, [], ◌∷◌, ◌==◌, arith, Bool-cases,
  inl, inr,
}
use pony_downloader.Blob.Source.{Source, some_error, record_source_error, record_source_success}

-- a read of a source with ranges: it fails with an error, or it succeeds
pub data Read : Type 0 where
  fails : ℕ → Read
  succeeds : Read

unfoldable pub read_all : List Read → Source → Source
read_all [] s = s
read_all (fails e ∷ reads) s = read_all reads (record_source_error e true s)
read_all (succeeds ∷ reads) s = read_all reads (record_source_success true s)

abbrev pub is_failure : Read → Bool
is_failure (fails e) = true
is_failure succeeds = false

-- two reads in a row fail
abbrev pub two_in_a_row : List Read → Bool
two_in_a_row [] = false
two_in_a_row (r ∷ []) = false
two_in_a_row (r ∷ r' ∷ reads) = is_failure r && is_failure r' || two_in_a_row (r' ∷ reads)

abbrev starts_failing : List Read → Bool
starts_failing [] = false
starts_failing (r ∷ reads) = is_failure r

-- An error stays.
error_stays :
    (reads : List Read) (s : Source)
    → some_error s.read_err ≡ true
    → some_error (read_all reads s).read_err ≡ true
unfolding read_all record_source_error record_source_success
error_stays [] s h = h
error_stays (fails e ∷ reads) s h =
    error_stays reads (record_source_error e true s) (ground (arith, h))
error_stays (succeeds ∷ reads) s h =
    error_stays reads (record_source_success true s) (ground (arith, h))

first_failure :
    (e : ℕ) (s : Source)
    → some_error s.read_err ≡ false
    → s.range_failures ≡ 0
    → (some_error (record_source_error e true s).read_err ≡ false)
      × ((record_source_error e true s).range_failures ≡ 1)
unfolding record_source_error
first_failure e s h n = ground (arith, h, n)

second_failure :
    (e : ℕ) (s : Source)
    → some_error s.read_err ≡ false
    → s.range_failures ≡ 1
    → some_error (record_source_error e true s).read_err ≡ true
unfolding record_source_error
second_failure e s h n = ground (arith, h, n)

success_resets :
    (s : Source)
    → some_error s.read_err ≡ false
    → (some_error (record_source_success true s).read_err ≡ false)
      × ((record_source_success true s).range_failures ≡ 0)
unfolding record_source_success
success_resets s h = ground (arith, h)

fails_next :
    (e : ℕ) (reads : List Read)
    → two_in_a_row (fails e ∷ reads) ≡ (starts_failing reads || two_in_a_row reads)
fails_next e [] = refl
fails_next e (r ∷ reads) = refl

succeeds_next : (reads : List Read) → two_in_a_row (succeeds ∷ reads) ≡ two_in_a_row reads
succeeds_next [] = refl
succeeds_next (r ∷ reads) = refl

read_all_from :
    (reads : List Read) (s : Source)
    → some_error s.read_err ≡ false
    → s.range_failures ≤ 1
    → some_error (read_all reads s).read_err
      ≡ ((s.range_failures == 1 && starts_failing reads) || two_in_a_row reads)
unfolding read_all
read_all_from [] s h n = ground (arith, h)
read_all_from (fails e ∷ reads) s h n = elim (Bool-cases (s.range_failures == 1)) [
  | inl one ↦ rw one (
      error_stays reads (record_source_error e true s) (second_failure e s h (ground (arith, one))))
  | inr other ↦
      let f = first_failure e s h (ground (arith, other, n)) in
      rw (other, fails_next e reads)
        (read_all_from reads (record_source_error e true s) f.0 (omega (arith, f.1)) ∙ rw f.1 refl)
]
read_all_from (succeeds ∷ reads) s h n =
    let f = success_resets s h in
    let ih = read_all_from reads (record_source_success true s) f.0 (omega (arith, f.1)) in
    elim (Bool-cases (s.range_failures == 1)) [
      | inl one ↦ rw (one, succeeds_next reads) (ih ∙ rw f.1 refl)
      | inr other ↦ rw (other, succeeds_next reads) (ih ∙ rw f.1 refl)
    ]

-- A fresh source with ranges is broken by a sequence of reads exactly when two reads in a row fail.
pub read_all_lem :
    (reads : List Read) (s : Source)
    → some_error s.read_err ≡ false
    → s.range_failures ≡ 0
    → some_error (read_all reads s).read_err ≡ two_in_a_row reads
read_all_lem reads s h n = read_all_from reads s h (omega (arith, n)) ∙ rw n refl
