-- ===== src/Http/Retry/Turns.antt =====
-- The state in which each retry starts.
use pony_downloader.Common.{
  ℕ, suc, ◌≡◌, sym, ◌∙◌, subst, pos, ltb, leb, Bool, true, false, not, ◌&&◌, ◌||◌, none, some,
  if◌then◌else◌, arith, if_cases, if_both, ltb_ℤ, leb_ℤ,
}
use pony_downloader.Http.Connection.{
  FetchError, is_terminal_range_error, should_count_http_failure, is_forbidden,
}
use pony_downloader.Http.Completion.{has_sequential_prefix}
use pony_downloader.Http.Attempt.Sequential.{
  Fetch, Environment, complete_from_resolve_fallback, completed_by_prefetch, prefetch_complete,
  takes_over, restart_connection,
}
use pony_downloader.Http.Attempt.Once.{
  World, Ending, done, cancelled, failed_with, download_chunk_once,
}
use pony_downloader.Http.Attempt.Planning.{IsReady, reset_first, reset_downloaded}
use pony_downloader.Http.Attempt.Steady.{IsSteady, dropped-IsSteady}
use pony_downloader.Http.Retry.{
  Run, Turn, again, returned, before_attempt, attempted, after_done, after_attempt, after_failure,
  after_fallback, retry_after, count_failure, count_up, give_up, next_retry, note_error,
  notify_failure, set_failed, uses_fallback, run_once,
}
use pony_downloader.Http.Retry.Ready.{download_chunk_once-Kept}

-- The loop returns, or it goes on with a steady state and one retry more.
Stays : ℕ → Turn → Type 0
Stays n (returned r) = Unit
Stays n (again r) = IsSteady r.fetch × (r.retries ≡ suc n)

restart_takes : (f : Fetch) → takes_over (restart_connection f) ≡ takes_over f
restart_takes f = ground arith

restart-IsSteady : (f : Fetch) → IsSteady f → IsSteady (restart_connection f)
restart-IsSteady f v = record {
  fresh = λ w.
      let (r, d) = v.fresh (sym (restart_takes f) ∙ w) in (r, reset_downloaded f.res f.conn r ∙ d);
  from_first = λ r. (reset_first f.res f.conn r).0;
}

before_attempt-IsSteady : (r : Run) → IsSteady r.fetch → IsSteady (before_attempt r).fetch
before_attempt-IsSteady r v =
    if_both (λ (r' : Run). IsSteady r'.fetch)
      (ltb 0 r.retries
        && not (
            has_sequential_prefix r.fetch.res r.fetch.reprobe_eligible r.fetch.connections
              r.fetch.conn))
      (record r { fetch = restart_connection r.fetch }) r (restart-IsSteady r.fetch v) v

before_attempt_retries : (r : Run) → (before_attempt r).retries ≡ r.retries
before_attempt_retries r = ground arith

next_retry-Stays : (r : Run) → IsSteady r.fetch → Stays r.retries (next_retry r)
unfolding Stays
next_retry-Stays r v = (record { fresh = v.fresh; from_first = v.from_first }, omega arith)

after_fallback-Stays :
    (e : FetchError) (r : Run) → IsSteady r.fetch → Stays r.retries (after_fallback e r)
unfolding Stays
after_fallback-Stays e r v =
    let noted = note_error e r in
    let ended = returned (notify_failure (set_failed noted)) in
    let steady : IsSteady noted.fetch = record { fresh = v.fresh; from_first = v.from_first } in
    let counted : Turn = if is_forbidden (some e) then ended else count_failure noted in
    let steady' : IsSteady (count_up noted).fetch = record {
      fresh = v.fresh;
      from_first = v.from_first;
    } in
    if_both (Stays r.retries) (is_terminal_range_error (some e)) ended (retry_after e r) tt (
      if_both (Stays r.retries) (should_count_http_failure (some e)) counted (next_retry noted)
        (if_both (Stays r.retries) (is_forbidden (some e)) ended (count_failure noted) tt (
          if_both (Stays r.retries) (leb 3 (count_up noted).fetch.conn.retry_times)
            (give_up (count_up noted)) (next_retry (count_up noted)) tt
            (next_retry-Stays (count_up noted) steady')))
        (next_retry-Stays noted steady))

-- what `completeFromResolveFallback` leaves if it does not complete the download
LeftSteady : Fetch × Bool → Type 0
LeftSteady (f, completed) = completed ≡ false → IsSteady f

fallback-LeftSteady :
    (env : Environment) (f : Fetch) → IsSteady f → LeftSteady (complete_from_resolve_fallback env f)
unfolding complete_from_resolve_fallback LeftSteady
fallback-LeftSteady env f v =
    let dropped = record f { resolve_fallback = false } in
    let finished : Fetch × Bool = (completed_by_prefetch env.prefetched f, true) in
    let wrong =
      ltb_ℤ (pos 0) f.res.size
      && not (leb_ℤ env.prefetched f.res.size && leb_ℤ f.res.size env.prefetched) in
    let checked : Fetch × Bool = if wrong then (dropped, false) else finished in
    let waited : Fetch × Bool =
      if env.cancelled || not (prefetch_complete env f) then (dropped, false) else checked in
    if_both LeftSteady (not (takes_over f)) (f, false) waited (λ _. v)
      (if_both LeftSteady (env.cancelled || not (prefetch_complete env f)) (dropped, false) checked
        (λ _. dropped-IsSteady f v)
        (if_both LeftSteady wrong (dropped, false) finished (λ _. dropped-IsSteady f v)
          (λ c. absurd (cc))))

after_failure-Stays :
    (w : World) (e : FetchError) (r : Run)
    → IsSteady r.fetch
    → Stays r.retries (after_failure w e r)
unfolding Stays LeftSteady
after_failure-Stays w e r v =
    let r' = record r { fetch = (complete_from_resolve_fallback w.env r.fetch).0 } in
    let tried : Turn =
      if (complete_from_resolve_fallback w.env r.fetch).1
      then returned r'
      else after_fallback e r' in
    if_both (Stays r.retries) (uses_fallback e) tried (after_fallback e r)
      (if_cases (Stays r.retries) (complete_from_resolve_fallback w.env r.fetch).1 (returned r')
        (after_fallback e r') (λ _. tt)
        (λ k. after_fallback-Stays e r' (fallback-LeftSteady w.env r.fetch v k)))
      (after_fallback-Stays e r v)

after_attempt-Stays :
    (w : World) (e : Ending) (r : Run)
    → w.helped ≡ none
    → IsSteady r.fetch
    → Stays r.retries (after_attempt w e r)
unfolding Stays
after_attempt-Stays w done r alone v = subst (λ o. Stays r.retries (after_done o r)) (sym alone) tt
after_attempt-Stays w cancelled r alone v = tt
after_attempt-Stays w (failed_with e) r alone v = after_failure-Stays w e r v

run_once-Stays :
    (w : World) (r : Run) → w.helped ≡ none → IsSteady r.fetch → Stays r.retries (run_once w r)
unfolding run_once
run_once-Stays w r alone v =
    let r' = before_attempt r in
    let once = download_chunk_once w r'.fetch in
    subst (λ n. Stays n (run_once w r)) (before_attempt_retries r)
      (after_attempt-Stays w once.ending (attempted r' once) alone
        (download_chunk_once-Kept w r'.fetch (before_attempt-IsSteady r v)))

restart-IsReady : (f : Fetch) → IsSteady f → IsReady (restart_connection f)
restart-IsReady f v =
    let s = restart-IsSteady f v in
    record {
      fresh = s.fresh;
      from_first = s.from_first;
      prefixed = λ r n. (reset_first f.res f.conn r).1;
    }

before_attempt-IsReady :
    (n : ℕ) (r : Run) → r.retries ≡ suc n → IsSteady r.fetch → IsReady (before_attempt r).fetch
before_attempt-IsReady n r h v =
    let f = r.fetch in
    let prefix = has_sequential_prefix f.res f.reprobe_eligible f.connections f.conn in
    if_cases (λ (r' : Run). IsReady r'.fetch) (ltb 0 r.retries && not prefix)
      (record r { fetch = restart_connection f }) r (λ _. restart-IsReady f v)
      (λ k. record {
        fresh = v.fresh;
        from_first = v.from_first;
        prefixed =
            λ _ none_left. absurd (never (ltb 0 r.retries) prefix k (ground (arith, h)) none_left);
      })
  where
    never : (a b : Bool) → a && not b ≡ false → a ≡ true → b ≡ false → ⊥
    never a b h k l = ground (arith, h, k, l)

-- A round of the loop in which no other connection gives away work, and after which the loop goes on,
-- keeps what holds between two attempts; and the next attempt starts from a state from which the bytes
-- of its response go to their offsets.
pub run_once-IsReady :
    (w : World) (r : Run) {r' : Run}
    → w.helped ≡ none
    → IsSteady r.fetch
    → run_once w r ≡ again r'
    → IsSteady r'.fetch × IsReady (before_attempt r').fetch
unfolding Stays
run_once-IsReady w r {r'} alone v e =
    let (steady, retries) = subst (Stays r.retries) e (run_once-Stays w r alone v) in
    (steady, before_attempt-IsReady r.retries r' retries steady)
