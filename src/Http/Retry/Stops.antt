-- ===== src/Http/Retry/Stops.antt =====
-- The loop at a server that refuses.
use pony_downloader.Common.{
  ℕ, suc, ◌+◌, ◌≤◌, ◌≡◌, refl, sym, ◌∙◌, leb, true, false, List, [], ◌∷◌, Option, some,
  if◌then◌else◌, inl, inr, arith, if_cases, if_both, length, subst,
}
use pony_downloader.Http.Connection.{
  request_error, is_terminal_range_error, is_range_integrity_error, extract_request_error,
  is_failure_exempt_http_code, should_count_http_failure, is_forbidden,
}
use pony_downloader.Http.Attempt.Sequential.{Fetch, Environment, complete_from_resolve_fallback}
use pony_downloader.Http.Attempt.Once.{World, Once, done, download_chunk_once}
use pony_downloader.Http.SlowStart.{SlowStart}
use pony_downloader.Http.Retry.{
  Run, Turn, again, returned, before_attempt, after_attempt, after_done, after_failure,
  after_fallback, count_failure, count_up, give_up, next_retry, note_error, notify_failure,
  set_failed, attempted, run_once, run_rounds, run_connection, exit_at_end, exit_connection,
  started, uses_fallback,
}
use pony_downloader.Http.Retry.Refused.{
  IsRefusing, AllRefusing, IsRefused, times, before_attempt-times, clash, once-IsRefused,
}

-- The loop returns, or one failure more has been counted and it was not the third.
Advances : ℕ → Turn → Type 0
Advances n (returned r) = Unit
Advances n (again r) = (times r.fetch ≡ suc n) × (suc n ≤ 2)

counted : (n : ℕ) (r : Run) → times r.fetch ≡ n → Advances n (count_failure r)
unfolding Advances
counted n r h =
    if_cases (Advances n) (leb 3 (count_up r).fetch.conn.retry_times) (give_up (count_up r))
      (next_retry (count_up r)) (λ _. tt) (λ l. (omega (arith, h), ground (arith, l, h)))

counts_it :
    (status : ℕ)
    → is_failure_exempt_http_code status ≡ false
    → should_count_http_failure (some (request_error status)) ≡ true
unfolding should_count_http_failure extract_request_error
counts_it status e = rw e refl

retried :
    (n status : ℕ) (r : Run)
    → is_failure_exempt_http_code status ≡ false
    → times r.fetch ≡ n
    → Advances n (after_fallback (request_error status) r)
unfolding Advances is_terminal_range_error is_range_integrity_error
retried n status r e h =
    let err = request_error status in
    let noted = note_error err r in
    let ended = returned (notify_failure (set_failed noted)) in
    let counts : Turn = if is_forbidden (some err) then ended else count_failure noted in
    if_cases (Advances n) (should_count_http_failure (some err)) counts (next_retry noted)
      (λ _.
        if_both (Advances n) (is_forbidden (some err)) ended (count_failure noted) tt
          (counted n noted h))
      (λ f. absurd (clash (counts_it status e) f))

drop_times :
    (env : Environment) (f : Fetch)
    → (complete_from_resolve_fallback env f).1 ≡ false
    → times (complete_from_resolve_fallback env f).0 ≡ times f
unfolding complete_from_resolve_fallback
drop_times env f h = ground (arith, h)

failed_once :
    (w : World) (n status : ℕ) (r : Run)
    → is_failure_exempt_http_code status ≡ false
    → times r.fetch ≡ n
    → Advances n (after_failure w (request_error status) r)
unfolding Advances
failed_once w n status r e h =
    let err = request_error status in
    let (f, completed) = complete_from_resolve_fallback w.env r.fetch in
    let r' = record r { fetch = (complete_from_resolve_fallback w.env r.fetch).0 } in
    let tried : Turn =
      if (complete_from_resolve_fallback w.env r.fetch).1
      then returned r'
      else after_fallback err r' in
    if_both (Advances n) (uses_fallback err) tried (after_fallback err r)
      (if_cases (Advances n) (complete_from_resolve_fallback w.env r.fetch).1 (returned r')
        (after_fallback err r') (λ _. tt)
        (λ k. retried n status r' e (drop_times w.env r.fetch k ∙ h)))
      (retried n status r e h)

module _ (w : World) (v : IsRefusing w) where
  done_returns : (r : Run) (n : ℕ) → Advances n (after_attempt w done r)
  unfolding Advances
  done_returns r n = subst (λ o. Advances n (after_done o r)) (sym v.alone) tt

  attempt-Advances :
      (n : ℕ) (r : Run) (o : Once)
      → IsRefused n v.response.status o
      → Advances n (after_attempt w o.ending (attempted r o))
  attempt-Advances n r o h = elim h.ending [
    | inl d ↦
        subst (λ e. Advances n (after_attempt w e (attempted r o))) (sym d)
          (done_returns (attempted r o) n)
    | inr f ↦
        subst (λ e. Advances n (after_attempt w e (attempted r o))) (sym f)
          (failed_once w n v.response.status (attempted r o) v.counts h.kept)
  ]

  run_once-Advances : (r : Run) → Advances (times r.fetch) (run_once w r)
  unfolding run_once
  run_once-Advances r =
      subst (λ n. Advances n (run_once w r)) (before_attempt-times r)
        (attempt-Advances (times (before_attempt r).fetch) (before_attempt r)
          (download_chunk_once w (before_attempt r).fetch)
          (once-IsRefused w v (before_attempt r).fetch))

abbrev Returns : Turn → Type 0
Returns (returned r) = Unit
Returns (again r) = ⊥

turned :
    (n : ℕ) (t : Turn) (next : Run → Turn)
    → Advances n t
    → ((r : Run) → times r.fetch ≡ suc n → suc n ≤ 2 → Returns (next r))
    → Returns (elim t [ again r ↦ next r | returned r ↦ returned r ])
unfolding Advances
turned n (returned r) next a h = tt
turned n (again r) next a h = h r a.0 a.1

rounds-Returns :
    (ws : List World) (r : Run)
    → AllRefusing ws
    → times r.fetch ≤ 2
    → 3 ≤ length ws + times r.fetch
    → Returns (run_rounds ws r)
unfolding run_rounds
rounds-Returns [] r h l e = absurd (omega (arith, l, e))
rounds-Returns (w ∷ ws) r h l e =
    turned (times r.fetch) (run_once w r) (run_rounds ws) (run_once-Advances w h.0 r)
      (λ r' t b. rounds-Returns ws r' h.1 (omega (arith, t, b)) (omega (arith, t, e)))

at_end : (t : Turn) → Returns t → (r : Run) × (exit_at_end t ≡ returned r)
at_end (again r) h = absurd h
at_end (returned r) h = (exit_connection r, refl)

-- The loop of a connection returns within three attempts if the server answers each of them with a
-- status that is an error and counts as a failure, no redirect is followed, no attempt is cancelled and
-- no other connection gives away work.
pub run_connection-returns :
    (ws : List World) (f : Fetch) (slow_start : Option SlowStart)
    → AllRefusing ws
    → 3 ≤ length ws
    → (r : Run) × (run_connection ws f slow_start ≡ returned r)
unfolding run_connection
run_connection-returns ws f slow_start h l =
    at_end (run_rounds ws (started f slow_start))
      (rounds-Returns ws (started f slow_start) h (omega arith) (omega (arith, l)))
