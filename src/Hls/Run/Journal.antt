-- ===== src/Hls/Run/Journal.antt =====
-- The journal that a run saves, as the next run of its plan reads it.
use pony_downloader.Common.{
  ℕ, ◌^◌, ◌<◌, ℤ, pos, leb_ℤ, true, ◌&&◌, [], ◌∷◌, some, ◌==◌, if◌then◌else◌, ◌≡◌, refl, ap, ◌∙◌,
  arith, if_cases,
}
use pony_downloader.Common.Text.{Bytes, eq_bytes}
use pony_downloader.Common.Text.Decimal.{number-format_int}
use pony_downloader.Hls.Run.{
  Run, Journal, find_size, put_size, keep_entry, load_entries, save_entries, save_journal,
  load_journal, new_run,
}

-- the entries with bytes
abbrev pub keep_filled : Journal → Journal
keep_filled [] = []
keep_filled ((i, size) ∷ journal) =
    let rest = keep_filled journal in if leb_ℤ size (pos 0) then rest else (i, size) ∷ rest

-- every entry is of a segment of the plan
abbrev pub AllWithin : ℕ → Journal → Type 0
AllWithin count [] = Unit
AllWithin count ((i, size) ∷ journal) = (i < count) × AllWithin count journal

find_size-put_size :
    (i k : ℕ) (size : ℤ) (journal : Journal)
    → find_size i (put_size k size journal) ≡ (if k == i then some size else find_size i journal)
find_size-put_size i k size [] = refl
find_size-put_size i k size ((l, old) ∷ journal) =
    ground (arith, find_size-put_size i k size journal)

kept :
    (count i k : ℕ) (size : ℤ) (loaded journal : Journal)
    → k < count
    → find_size i loaded ≡ find_size i (keep_filled journal)
    → find_size i (keep_entry count (some (pos k)) size loaded)
      ≡ find_size i (keep_filled ((k, size) ∷ journal))
kept count i k size loaded journal l h = ground (arith, find_size-put_size i k size loaded, h, l)

loaded_entries :
    (count i : ℕ) (journal : Journal)
    → count < 2 ^ 63
    → AllWithin count journal
    → find_size i (load_entries count (save_entries journal) []) ≡ find_size i (keep_filled journal)
loaded_entries count i [] c h = refl
loaded_entries count i ((k, size) ∷ journal) c h =
    let rest = load_entries count (save_entries journal) [] in
    ap (λ o. find_size i (keep_entry count o size rest))
      (number-format_int k (omega (arith, h.0, c)))
    ∙ kept count i k size rest journal h.0 (loaded_entries count i journal c h.1)

eq_bytes_refl : (s : Bytes) → eq_bytes s s ≡ true
eq_bytes_refl [] = refl
eq_bytes_refl (c ∷ s) = ground (arith, eq_bytes_refl s)

-- Of a journal whose entries are of segments of the plan, the next run of the plan in the same folder
-- finds exactly the sizes of the entries with bytes.
pub load_journal-save_journal :
    (run : Run) (i : ℕ)
    → run.count < 2 ^ 63
    → AllWithin run.count run.journal
    → find_size i (load_journal (new_run (save_journal run))).journal
      ≡ find_size i (keep_filled run.journal)
unfolding load_journal
load_journal-save_journal run i c h =
    let next = new_run (save_journal run) in
    if_cases (λ (r : Run). find_size i r.journal ≡ find_size i (keep_filled run.journal))
      (eq_bytes run.staging_id run.staging_id
        && (eq_bytes run.plan_hash run.plan_hash && run.count == run.count))
      (record next { journal = load_entries run.count (save_entries run.journal) [] }) next
      (λ _. loaded_entries run.count i run.journal c h)
      (λ n. absurd (ground (arith, n, eq_bytes_refl run.staging_id, eq_bytes_refl run.plan_hash)))
