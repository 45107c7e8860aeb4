-- ===== src/Hls/Run.antt =====
-- internal/protocol/hls/fetcher.go and internal/protocol/hls/journal.go: one run of an HLS download,
-- from the journal of earlier runs to the merged file. What a segment's request, its key and its
-- decryption give is the content of the segment, a parameter; the staging folder is a map from the
-- number of a segment to its file; and the JSON of the journal is the record that it stands for.
pub mod Journal
pub mod Pending
pub mod Merge
use pony_downloader.Common.{
  ℕ, zero, suc, ◌+◌, ℤ, pos, pos_part, leb_ℤ, ltb_ℤ, eq_ℤ, ◌+ℤ◌, Bool, true, false, not, ◌&&◌, ◌||◌,
  List, [], ◌∷◌, ◌++◌, Option, none, some, ◌==◌, if◌then◌else◌, length,
}
use pony_downloader.Common.Text.{Bytes, eq_bytes, format_int, number}

-- `journalFile`
pub record JournalFile : Type 0 where
  pub staging_id : Bytes
  pub plan_hash : Bytes
  pub segment_count : ℕ
  pub sizes : List (Bytes × ℤ)

abbrev pub Journal : Type 0
Journal = List (ℕ × ℤ)

abbrev pub find_size : ℕ → Journal → Option ℤ
find_size i [] = none
find_size i ((k, size) ∷ journal) =
    let rest = find_size i journal in if k == i then some size else rest

-- `run.journal[idx] = size`
abbrev pub put_size : ℕ → ℤ → Journal → Journal
put_size i size [] = (i, size) ∷ []
put_size i size ((k, old) ∷ journal) =
    let rest = put_size i size journal in if k == i then (i, size) ∷ journal else (k, old) ∷ rest

-- `hlsRun`, with the staging folder, the journal that is on disk, none where it is missing or broken,
-- and the file at the target
pub record Run : Type 0 where
  pub count : ℕ
  pub staging_id : Bytes
  pub plan_hash : Bytes
  pub journal : Journal
  pub files : ℕ → Option Bytes
  pub journal_file : Option JournalFile
  pub downloaded : ℤ
  pub done_count : ℕ
  pub fail_count : ℕ
  pub base_bytes : ℤ
  pub base_done : ℕ
  pub pending : List ℕ
  pub output : Option Bytes

abbrev pub keep_entry : ℕ → Option ℤ → ℤ → Journal → Journal
keep_entry count none size journal = journal
keep_entry count (some i) size journal =
    if ltb_ℤ i (pos 0) || (leb_ℤ (pos count) i || leb_ℤ size (pos 0))
    then journal
    else put_size (pos_part i) size journal

-- the loop over the entries of the file
abbrev pub load_entries : ℕ → List (Bytes × ℤ) → Journal → Journal
load_entries count [] journal = journal
load_entries count ((key, size) ∷ sizes) journal =
    keep_entry count (number key) size (load_entries count sizes journal)

abbrev pub belongs : Run → JournalFile → Bool
belongs run file =
    eq_bytes file.staging_id run.staging_id
    && (eq_bytes file.plan_hash run.plan_hash && file.segment_count == run.count)

-- `loadJournal`
unfoldable pub load_journal : Run → Run
load_journal run = elim run.journal_file [
  | none ↦ run
  | some file ↦
      if belongs run file
      then record run { journal = load_entries run.count file.sizes run.journal }
      else run
]

abbrev pub save_entries : Journal → List (Bytes × ℤ)
save_entries [] = []
save_entries ((i, size) ∷ journal) = (format_int i, size) ∷ save_entries journal

-- `saveJournal`
abbrev pub save_journal : Run → Run
save_journal run = record run {
  journal_file = some (record {
    staging_id = run.staging_id;
    plan_hash = run.plan_hash;
    segment_count = run.count;
    sizes = save_entries run.journal;
  });
}

-- the numbers from `start` on, in order
abbrev pub count_from : ℕ → ℕ → List ℕ
count_from start zero = []
count_from start (suc n) = start ∷ count_from (suc start) n

-- a segment counts as done if its file has the size of the journal
abbrev pub is_staged : Option ℤ → Option Bytes → Bool
is_staged none file = false
is_staged (some size) none = false
is_staged (some size) (some bytes) = eq_ℤ (pos (length bytes)) size

abbrev pub size_in : Option ℤ → ℤ
size_in none = pos 0
size_in (some size) = size

-- one round of the loop of `prepareRun`
abbrev pub prepare_segment : ℕ → Run → Run
prepare_segment i run =
    if is_staged (find_size i run.journal) (run.files i)
    then record run {
      base_bytes = run.base_bytes +ℤ size_in (find_size i run.journal);
      base_done = run.base_done + 1;
    }
    else record run { pending = run.pending ++ i ∷ [] }

abbrev pub prepare_segments : List ℕ → Run → Run
prepare_segments [] run = run
prepare_segments (i ∷ is) run = prepare_segments is (prepare_segment i run)

abbrev pub publish : Run → Run
publish run = record run { downloaded = run.base_bytes }

-- `prepareRun`
unfoldable pub prepare_run : Run → Run
unfolding load_journal
prepare_run run = publish (prepare_segments (count_from 0 run.count) (load_journal run))

abbrev pub put_file : ℕ → Bytes → (ℕ → Option Bytes) → ℕ → Option Bytes
put_file i bytes files k = if k == i then some bytes else files k

-- `storeSegment`
abbrev pub store_segment : ℕ → Bytes → Run → Run
store_segment i bytes run = save_journal (record run {
  files = put_file i bytes run.files;
  journal = put_size i (pos (length bytes)) run.journal;
})

-- `downloadSegment` with this content; what is there already counts too
unfoldable pub download_segment : ℕ → Bytes → Run → Run
download_segment i bytes run = record (store_segment i bytes run) {
  done_count = run.done_count + 1;
  downloaded = run.downloaded +ℤ pos (length bytes);
}

abbrev pub onto : Option Bytes → Option Bytes → Option Bytes
onto (some bytes) (some rest) = some (bytes ++ rest)
onto file rest = none

-- the loop of `merge`
abbrev pub merge_files : (ℕ → Option Bytes) → List ℕ → Option Bytes
merge_files files [] = some []
merge_files files (i ∷ is) = onto (files i) (merge_files files is)

-- the merged file takes the place of the target, and its size is the progress of the run
abbrev pub put_output : Run → Option Bytes → Option Run
put_output run none = none
put_output run (some bytes) =
    some (record run { output = some bytes; downloaded = pos (length bytes) })

-- `merge`, none for an error: then the part file is removed and the target is as before
unfoldable pub merge : Run → Option Run
merge run = put_output run (merge_files run.files (count_from 0 run.count))

-- `os.RemoveAll(run.tempDir)`
abbrev pub remove_staging : Run → Run
remove_staging run = record run { files = λ i. none; journal_file = none }

-- What `supervise` does after the merge, where `paused` says that the run was paused during it. The
-- signal is none where nothing is sent, and else whether the download has succeeded.
abbrev pub after_merge : Bool → Run → Option Run → Run × Option Bool
after_merge paused run none = (run, some false)
after_merge paused run (some merged) =
    if paused then (merged, none) else (remove_staging merged, some true)

-- `supervise` once the workers have ended, where the run is paused before the merge or during it
unfoldable pub supervise : Bool → Bool → Run → Run × Option Bool
unfolding merge
supervise stopped paused run =
    if stopped
    then (run, none)
    else (if run.fail_count == 0 then after_merge paused run (merge run) else (run, some false))

-- what `Start` makes for a plan whose folder has these files
abbrev pub new_run : Run → Run
new_run run = record run {
  journal = [];
  downloaded = pos 0;
  done_count = 0;
  fail_count = 0;
  base_bytes = pos 0;
  base_done = 0;
  pending = [];
}
