-- ===== src/Http/Retry.antt =====
-- internal/protocol/http/fetcher.go, `runConnection`: the loop around `downloadChunkOnce` that retries.
-- The waiting between two attempts is left out; a `World` is what one attempt meets.
pub mod Refused
pub mod Stops
pub mod Ready
pub mod Turns
use pony_downloader.Common.{
  ℕ, ◌+◌, ltb, leb, Bool, true, false, not, ◌&&◌, ◌||◌, List, [], ◌∷◌, Option, none, some, ◌==◌,
  if◌then◌else◌,
}
use pony_downloader.Http.Connection.{
  Chunk, Connection, connecting, failed_state, completed_state, FetchError, is_terminal_range_error,
  extract_request_error, is_failure_exempt_http_code, should_count_http_failure, is_forbidden,
}
use pony_downloader.Http.SlowStart.{
  SlowStart, signal_expansion, on_connect_success, on_connect_failed,
}
use pony_downloader.Http.Completion.{has_sequential_prefix}
use pony_downloader.Http.Attempt.Sequential.{
  Fetch, restart_connection, complete_from_resolve_fallback,
}
use pony_downloader.Http.Attempt.Once.{
  World, Once, Ending, done, cancelled, failed_with, download_chunk_once,
}

pub record Run : Type 0 where
  pub fetch : Fetch
  pub slow_start : Option SlowStart
  pub retries : ℕ

-- the loop goes on or has returned
pub data Turn : Type 0 where
  again returned : Run → Turn

abbrev pub with_connection : Run → (Connection → Connection) → Run
with_connection r g = record r { fetch = record r.fetch { conn = g r.fetch.conn } }

abbrev pub succeeds : Option SlowStart → Option SlowStart
succeeds none = none
succeeds (some s) = some (on_connect_success s).0

abbrev pub fails : Option SlowStart → Option SlowStart
fails none = none
fails (some s) = some (on_connect_failed s)

abbrev pub signals : Option SlowStart → Option SlowStart
signals none = none
signals (some s) = some (signal_expansion s)

abbrev pub notify_failure : Run → Run
notify_failure r = record r { slow_start = fails r.slow_start }

-- a retry keeps a prefix that can be resumed
abbrev pub before_attempt : Run → Run
before_attempt r =
    let f = r.fetch in
    if ltb 0 r.retries && not (has_sequential_prefix f.res f.reprobe_eligible f.connections f.conn)
    then record r { fetch = restart_connection f }
    else r

abbrev pub complete : Run → Run
complete r = with_connection r (λ c. record c { completed = true; state = completed_state })

-- the chunk is done, and the connection may have got another
abbrev pub after_done : Option Chunk → Run → Turn
after_done none r = returned (complete r)
after_done (some chunk) r =
    if r.fetch.res.range
    then again (record (with_connection r (λ c. record c { chunk = chunk; retry_times = 0 })) {
      retries = 0;
    })
    else returned (complete r)

abbrev pub set_failed : Run → Run
set_failed r = with_connection r (λ c. record c { state = failed_state; failed = true })

abbrev pub next_retry : Run → Turn
next_retry r = again (record (with_connection r (λ c. record c { state = failed_state })) {
  retries = r.retries + 1;
})

abbrev pub count_up : Run → Run
count_up r =
    notify_failure
      (with_connection r (λ c. record c { retry_times = c.retry_times + 1; failed = true }))

abbrev pub give_up : Run → Turn
give_up r = returned (with_connection r (λ c. record c { state = failed_state }))

-- a failure that counts: the third one ends the connection
abbrev pub count_failure : Run → Turn
count_failure r =
    if leb 3 (count_up r).fetch.conn.retry_times
    then give_up (count_up r)
    else next_retry (count_up r)

abbrev pub note_error : FetchError → Run → Run
note_error e r = with_connection r (λ c. record c { last_err = some e })

-- an error that is not terminal
abbrev pub retry_after : FetchError → Run → Turn
retry_after e r =
    if should_count_http_failure (some e)
    then (if is_forbidden (some e)
        then returned (notify_failure (set_failed (note_error e r)))
        else count_failure (note_error e r))
    else next_retry (note_error e r)

abbrev pub after_fallback : FetchError → Run → Turn
after_fallback e r =
    if is_terminal_range_error (some e)
    then returned (notify_failure (set_failed (note_error e r)))
    else retry_after e r

abbrev pub uses_fallback : FetchError → Bool
uses_fallback e = elim (extract_request_error (some e)) [
  | none ↦ true
  | some code ↦ not (is_failure_exempt_http_code code)
]

abbrev pub after_failure : World → FetchError → Run → Turn
after_failure w e r =
    if uses_fallback e
    then (if (complete_from_resolve_fallback w.env r.fetch).1
        then returned (record r { fetch = (complete_from_resolve_fallback w.env r.fetch).0 })
        else after_fallback e
            (record r { fetch = (complete_from_resolve_fallback w.env r.fetch).0 }))
    else after_fallback e r

abbrev pub after_attempt : World → Ending → Run → Turn
after_attempt w done r = after_done w.helped r
after_attempt w cancelled r = returned r
after_attempt w (failed_with e) r = after_failure w e r

abbrev pub attempted : Run → Once → Run
attempted r once = record r {
  fetch = once.fetch;
  slow_start = if once.connected then succeeds r.slow_start else r.slow_start;
}

-- one round of the loop
unfoldable pub run_once : World → Run → Turn
unfolding download_chunk_once complete_from_resolve_fallback should_count_http_failure is_forbidden
    is_terminal_range_error extract_request_error is_failure_exempt_http_code on_connect_success
    on_connect_failed
run_once w r =
    let r' = before_attempt r in
    let once = download_chunk_once w r'.fetch in after_attempt w once.ending (attempted r' once)

-- the loop, as far as the attempts are given
unfoldable pub run_rounds : List World → Run → Turn
unfolding run_once
run_rounds [] r = again r
run_rounds (w ∷ ws) r = elim (run_once w r) [
  | again r' ↦ run_rounds ws r'
  | returned r' ↦ returned r'
]

-- the deferred end of `runConnection`
abbrev pub exit_connection : Run → Run
exit_connection r =
    let r' = with_connection r (λ c. record c { exited = true }) in
    if not r.fetch.res.range
      && ((r.fetch.reprobe_eligible || r.fetch.conn.completed) && r.fetch.connections == 1)
    then record r' { slow_start = signals r.slow_start }
    else r'

abbrev pub exit_at_end : Turn → Turn
exit_at_end (again r) = again r
exit_at_end (returned r) = returned (exit_connection r)

abbrev pub started : Fetch → Option SlowStart → Run
started f slow_start =
    with_connection (record { fetch = f; slow_start = slow_start; retries = 0 })
      (λ c. record c { exited = false; state = connecting; retry_times = 0 })

-- `runConnection`
unfoldable pub run_connection : List World → Fetch → Option SlowStart → Turn
unfolding run_rounds
run_connection ws f slow_start = exit_at_end (run_rounds ws (started f slow_start))
