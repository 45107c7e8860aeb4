-- ===== src/Hls/Run/Pending.antt =====
-- Which segments a run downloads: those without a file of the size in the journal.
use pony_downloader.Common.{
  ℕ, ◌+◌, ℤ, ◌+ℤ◌, Bool, true, false, ◌||◌, List, [], ◌∷◌, ◌++◌, Option, none, some, ◌==◌,
  if◌then◌else◌, ◌≡◌, refl, ◌∙◌, arith, if_cases, if_both, subst, ◌⊎◌, inl, inr, Bool-cases,
}
use pony_downloader.Common.Text.{Bytes}
use pony_downloader.Hls.Run.{
  Run, JournalFile, find_size, is_staged, size_in, prepare_segment, prepare_segments, prepare_run,
  load_journal, load_entries, belongs, count_from,
}

abbrev pub has : ℕ → List ℕ → Bool
has i [] = false
has i (k ∷ ks) = k == i || has i ks

-- What the preparation leaves as it is.
pub record Keeps (run run' : Run) : Type 0 where
  pub files_eq : run'.files ≡ run.files
  pub count_eq : run'.count ≡ run.count
  pub fails_eq : run'.fail_count ≡ run.fail_count

Keeps-trans : (a b c : Run) → Keeps a b → Keeps b c → Keeps a c
Keeps-trans a b c h k = record {
  files_eq = k.files_eq ∙ h.files_eq;
  count_eq = k.count_eq ∙ h.count_eq;
  fails_eq = k.fails_eq ∙ h.fails_eq;
}

load_journal-Keeps : (run : Run) → Keeps run (load_journal run)
unfolding load_journal
load_journal-Keeps run = loaded run.journal_file
  where
    same : Keeps run run
    same = record { files_eq = refl; count_eq = refl; fails_eq = refl }

    loaded :
        (o : Option JournalFile)
        → Keeps run (elim o [
          | none ↦ run
          | some file ↦
              if belongs run file
              then record run { journal = load_entries run.count file.sizes run.journal }
              else run
        ])
    loaded none = same
    loaded (some file) =
        if_both (Keeps run) (belongs run file)
          (record run { journal = load_entries run.count file.sizes run.journal }) run
          (record { files_eq = refl; count_eq = refl; fails_eq = refl }) same

prepare_segment-Keeps : (i : ℕ) (run : Run) → Keeps run (prepare_segment i run)
prepare_segment-Keeps i run =
    if_both (Keeps run) (is_staged (find_size i run.journal) (run.files i))
      (record run {
        base_bytes = run.base_bytes +ℤ size_in (find_size i run.journal);
        base_done = run.base_done + 1;
      })
      (record run { pending = run.pending ++ i ∷ [] })
      (record { files_eq = refl; count_eq = refl; fails_eq = refl })
      (record { files_eq = refl; count_eq = refl; fails_eq = refl })

prepare_segments-Keeps : (is : List ℕ) (run : Run) → Keeps run (prepare_segments is run)
prepare_segments-Keeps [] run = record { files_eq = refl; count_eq = refl; fails_eq = refl }
prepare_segments-Keeps (i ∷ is) run =
    Keeps-trans run (prepare_segment i run) (prepare_segments is (prepare_segment i run))
      (prepare_segment-Keeps i run) (prepare_segments-Keeps is (prepare_segment i run))

pub prepare_run-Keeps : (run : Run) → Keeps run (prepare_run run)
unfolding prepare_run
prepare_run-Keeps run =
    let k =
      Keeps-trans run (load_journal run)
        (prepare_segments (count_from 0 run.count) (load_journal run)) (load_journal-Keeps run)
        (prepare_segments-Keeps (count_from 0 run.count) (load_journal run)) in
    record { files_eq = k.files_eq; count_eq = k.count_eq; fails_eq = k.fails_eq }

-- The segment waits, or it has a file.
abbrev pub Served : ℕ → Run → Type 0
Served i run = (has i run.pending ≡ true) ⊎ ((bytes : Bytes) × (run.files i ≡ some bytes))

has-append : (i : ℕ) (is : List ℕ) (k : ℕ) → has i (is ++ k ∷ []) ≡ (has i is || k == i)
has-append i [] k = ground arith
has-append i (l ∷ is) k = ground (arith, has-append i is k)

staged_file :
    (size : Option ℤ) (file : Option Bytes)
    → is_staged size file ≡ true
    → (bytes : Bytes) × (file ≡ some bytes)
staged_file none file h = cc
staged_file (some size) none h = cc
staged_file (some size) (some bytes) h = (bytes, refl)

prepare_segment-Served : (i : ℕ) (run : Run) → Served i (prepare_segment i run)
prepare_segment-Served i run =
    if_cases (Served i) (is_staged (find_size i run.journal) (run.files i))
      (record run {
        base_bytes = run.base_bytes +ℤ size_in (find_size i run.journal);
        base_done = run.base_done + 1;
      })
      (record run { pending = run.pending ++ i ∷ [] })
      (λ h. inr (staged_file (find_size i run.journal) (run.files i) h))
      (λ _. inl (has-append i run.pending i ∙ ground arith))

prepare_segment-keeps_Served :
    (i k : ℕ) (run : Run) → Served i run → Served i (prepare_segment k run)
prepare_segment-keeps_Served i k run h =
    if_cases (Served i) (is_staged (find_size k run.journal) (run.files k))
      (record run {
        base_bytes = run.base_bytes +ℤ size_in (find_size k run.journal);
        base_done = run.base_done + 1;
      })
      (record run { pending = run.pending ++ k ∷ [] }) (λ _. h)
      (λ _. elim h [ inl w ↦ inl (has-append i run.pending k ∙ ground (arith, w)) | inr f ↦ inr f ])

prepare_segments-keep_Served :
    (i : ℕ) (is : List ℕ) (run : Run) → Served i run → Served i (prepare_segments is run)
prepare_segments-keep_Served i [] run h = h
prepare_segments-keep_Served i (k ∷ is) run h =
    prepare_segments-keep_Served i is (prepare_segment k run)
      (prepare_segment-keeps_Served i k run h)

pub prepare_segments-Served :
    (i : ℕ) (is : List ℕ) (run : Run) → has i is ≡ true → Served i (prepare_segments is run)
prepare_segments-Served i [] run h = absurd (cc)
prepare_segments-Served i (k ∷ is) run h = elim (Bool-cases (k == i)) [
  | inl e ↦ prepare_segments-keep_Served i is (prepare_segment k run) (
      subst (λ l. Served l (prepare_segment k run)) (let q : k ≡ i = ground (arith, e) in q)
        (prepare_segment-Served k run))
  | inr n ↦ prepare_segments-Served i is (prepare_segment k run) (ground (arith, h, n))
]

-- Every segment of the plan waits, or it has a file.
pub prepare_run-Served :
    (i : ℕ) (run : Run) → has i (count_from 0 run.count) ≡ true → Served i (prepare_run run)
unfolding prepare_run
prepare_run-Served i run h = prepare_segments-Served i (count_from 0 run.count) (load_journal run) h
