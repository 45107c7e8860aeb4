-- ===== src/Hls/Run/Merge.antt =====
-- The merged file, over the runs of a plan and the order of the downloads.
use pony_downloader.Common.{
  ℕ, pos, length, subst, Bool, true, false, ◌||◌, List, [], ◌∷◌, ◌++◌, Option, none, some, ◌==◌,
  if◌then◌else◌, ◌≡◌, refl, sym, ap, ◌∙◌, arith, ◌⊎◌, inl, inr, Bool-cases,
}
use pony_downloader.Common.Text.{Bytes}
use pony_downloader.Hls.Run.{
  Run, prepare_run, download_segment, merge_files, merge, put_output, after_merge, supervise,
  count_from, new_run,
}
use pony_downloader.Hls.Run.Pending.{has, prepare_run-Keeps, Served, prepare_run-Served}

-- The staging folder holds nothing but contents of segments.
pub record IsStaged (content : ℕ → Bytes) (run : Run) : Type 0 where
  pub staged : (i : ℕ) (bytes : Bytes) → run.files i ≡ some bytes → bytes ≡ content i

-- the segments that the workers download, in the order in which they end
abbrev pub download_all : (ℕ → Bytes) → List ℕ → Run → Run
download_all content [] run = run
download_all content (i ∷ is) run = download_all content is (download_segment i (content i) run)

-- earlier runs of the plan, each with what it downloaded before it ended
abbrev pub earlier_runs : (ℕ → Bytes) → List (List ℕ) → Run → Run
earlier_runs content [] run = run
earlier_runs content (is ∷ runs) run =
    earlier_runs content runs (download_all content is (prepare_run (new_run run)))

abbrev pub contents : (ℕ → Bytes) → List ℕ → Bytes
contents content [] = []
contents content (i ∷ is) = content i ++ contents content is

-- how a run ends that has merged these bytes
pub record Ends (paused : Bool) (bytes : Bytes) (result : Run × Option Bool) : Type 0 where
  pub output_eq : result.0.output ≡ some bytes
  pub size_eq : result.0.downloaded ≡ pos (length bytes)
  pub signal_eq : result.1 ≡ (if paused then none else some true)

module _ (content : ℕ → Bytes) where
  downloaded_files :
      (i : ℕ) (order : List ℕ) (run : Run)
      → (download_all content order run).files i
        ≡ (if has i order then some (content i) else run.files i)
  unfolding download_segment
  downloaded_files i [] run = refl
  downloaded_files i (k ∷ ks) run =
      downloaded_files i ks (download_segment k (content k) run)
      ∙ either (has i ks) (Bool-cases (k == i))
    where
      either :
          (b : Bool)
          → ((k == i) ≡ true) ⊎ ((k == i) ≡ false)
          → (if b then some (content i) else (if i == k then some (content k) else run.files i))
            ≡ (if k == i || b then some (content i) else run.files i)
      either b (inl e) = let q : k ≡ i = ground (arith, e) in ground (arith, q, ap content q)
      either b (inr n) = ground (arith, n)

  downloaded_keeps :
      (order : List ℕ) (run : Run)
      → ((download_all content order run).count ≡ run.count)
        × ((download_all content order run).fail_count ≡ run.fail_count)
  unfolding download_segment
  downloaded_keeps [] run = (refl, refl)
  downloaded_keeps (k ∷ ks) run = downloaded_keeps ks (download_segment k (content k) run)

  merge_all :
      (is : List ℕ) (files : ℕ → Option Bytes)
      → ((i : ℕ) → has i is ≡ true → files i ≡ some (content i))
      → merge_files files is ≡ some (contents content is)
  merge_all [] files h = refl
  merge_all (i ∷ is) files h =
      rw (h i (ground arith), merge_all is files (λ k e. h k (ground (arith, e)))) refl

  download_all-IsStaged :
      (order : List ℕ) (run : Run)
      → IsStaged content run
      → IsStaged content (download_all content order run)
  download_all-IsStaged order run v = record {
    staged = λ i bytes h. by_case (has i order) i bytes (sym (downloaded_files i order run) ∙ h);
  }
    where
      by_case :
          (b : Bool) (i : ℕ) (bytes : Bytes)
          → (if b then some (content i) else run.files i) ≡ some bytes
          → bytes ≡ content i
      by_case true i bytes h = cc
      by_case false i bytes h = v.staged i bytes h

  prepare_run-IsStaged :
      (run : Run) → IsStaged content run → IsStaged content (prepare_run (new_run run))
  prepare_run-IsStaged run v = record {
    staged = λ i bytes h.
        v.staged i bytes
          (ap (λ (f : ℕ → Option Bytes). f i) (sym (prepare_run-Keeps (new_run run)).files_eq) ∙ h);
  }

  earlier_runs-IsStaged :
      (runs : List (List ℕ)) (run : Run)
      → IsStaged content run
      → IsStaged content (earlier_runs content runs run)
  earlier_runs-IsStaged [] run v = v
  earlier_runs-IsStaged (is ∷ runs) run v =
      earlier_runs-IsStaged runs (download_all content is (prepare_run (new_run run)))
        (download_all-IsStaged is (prepare_run (new_run run)) (prepare_run-IsStaged run v))

  earlier_runs-count :
      (runs : List (List ℕ)) (run : Run) → (earlier_runs content runs run).count ≡ run.count
  earlier_runs-count [] run = refl
  earlier_runs-count (is ∷ runs) run =
      earlier_runs-count runs (download_all content is (prepare_run (new_run run)))
      ∙ (downloaded_keeps is (prepare_run (new_run run))).0
      ∙ (prepare_run-Keeps (new_run run)).count_eq

  -- every segment of the plan has its content in the folder
  all_there :
      (run : Run) (order : List ℕ)
      → IsStaged content run
      → ((i : ℕ) → has i (prepare_run (new_run run)).pending ≡ true → has i order ≡ true)
      → (i : ℕ) → has i (count_from 0 run.count) ≡ true
      → (download_all content order (prepare_run (new_run run))).files i ≡ some (content i)
  all_there run order v h i e =
      let p = prepare_run (new_run run) in
      downloaded_files i order p ∙ found (has i order) (prepare_run-Served i (new_run run) e) (h i)
    where
      found :
          (b : Bool)
          → Served i (prepare_run (new_run run))
          → (has i (prepare_run (new_run run)).pending ≡ true → b ≡ true)
          → (if b then some (content i) else (prepare_run (new_run run)).files i) ≡ some (content i)
      found true s w = refl
      found false (inl p) w = absurd (let q : false ≡ true = w p in cc)
      found false (inr (bytes, f)) w = f ∙ ap some ((prepare_run-IsStaged run v).staged i bytes f)

  merged :
      (n : ℕ) (run : Run)
      → run.count ≡ n
      → ((i : ℕ) → has i (count_from 0 n) ≡ true → run.files i ≡ some (content i))
      → merge run ≡ put_output run (some (contents content (count_from 0 n)))
  unfolding merge
  merged n run c h = ap (put_output run) (
      ap {B = Option Bytes} (λ (m : ℕ). merge_files run.files (count_from 0 m)) c
      ∙ merge_all (count_from 0 n) run.files h)

  -- a run without a failure
  supervised :
      (n : ℕ) (run : Run) (paused : Bool)
      → run.fail_count ≡ 0
      → run.count ≡ n
      → ((i : ℕ) → has i (count_from 0 n) ≡ true → run.files i ≡ some (content i))
      → Ends paused (contents content (count_from 0 n)) (supervise false paused run)
  unfolding supervise
  supervised n run paused f c h =
      subst (Ends paused (contents content (count_from 0 n)))
        (sym (
          ap {B = Run × Option Bool}
            (λ (k : ℕ). if k == 0 then after_merge paused run (merge run) else (run, some false)) f
          ∙ ap (after_merge paused run) (merged n run c h)))
        (ends paused)
    where
      ends :
          (paused : Bool)
          → Ends paused
              (contents content (count_from 0 n))
              (after_merge paused run (put_output run (some (contents content (count_from 0 n)))))
      ends true = record { output_eq = refl; size_eq = refl; signal_eq = refl }
      ends false = record { output_eq = refl; size_eq = refl; signal_eq = refl }

-- If a folder holds nothing but contents of segments, then after any earlier runs of the plan, whatever
-- each has downloaded, a run in which every segment that waits is downloaded, in any order, and that is
-- not paused before the merge puts the contents of all segments at the target, in the order of the plan,
-- and reports their size; it signals success unless it was paused during the merge.
pub supervise_lem :
    (content : ℕ → Bytes) (run : Run) (runs : List (List ℕ)) (order : List ℕ) (paused : Bool)
    → IsStaged content run
    → ((i : ℕ)
        → has i (prepare_run (new_run (earlier_runs content runs run))).pending ≡ true
        → has i order ≡ true)
    → Ends paused (contents content (count_from 0 run.count)) (
        supervise false paused
          (download_all content order (prepare_run (new_run (earlier_runs content runs run)))))
supervise_lem content run runs order paused v h =
    let before = earlier_runs content runs run in
    let prepared = prepare_run (new_run before) in
    let kept = prepare_run-Keeps (new_run before) in
    let (same_count, same_fails) = downloaded_keeps content order prepared in
    let count_eq = earlier_runs-count content runs run in
    supervised content run.count (download_all content order prepared) paused
      (same_fails ∙ kept.fails_eq) (same_count ∙ kept.count_eq ∙ count_eq)
      (λ i e.
        all_there content before order (earlier_runs-IsStaged content runs run v) h i
          (ap {B = Bool} (λ (n : ℕ). has i (count_from 0 n)) count_eq ∙ e))
