-- ===== src/Http/Tests.antt =====
-- The HTTP fetcher at concrete inputs, and the theorems about it there.
use pony_downloader.Common.{
  ◌≤ℤ◌, ◌+◌, ◌-◌, ◌≤◌, ◌≡◌, ◌⊎◌, inr, refl, pos, ◌+ℤ◌, ◌-ℤ◌, half, Bool, true, List, [], ◌∷◌, some,
  arith, length, count, none, false,
}
use pony_downloader.Http.SlowStart.{
  SlowStart, new_slow_start, on_connect_success, get_next_batch_size, commit_batch,
}
use pony_downloader.Http.SlowStart.Growth.{succeed, expand, run, launched-le-max}
use pony_downloader.Http.SlowStart.Batch.{run_batch, responds, fails, batch_resolved, batch_stalls}
use pony_downloader.Http.Attempt.{Plan, Response, prepare, receive_success}
use pony_downloader.Http.Attempt.Sequential.{Fetch, Environment, Body}
use pony_downloader.Http.Attempt.Planning.{IsReady}
use pony_downloader.Http.Attempt.Reads.{read_data}
use pony_downloader.Http.Attempt.Once.{World, got, end_of_stream, done, download_chunk_once}
use pony_downloader.Http.Retry.{
  Run, Turn, again, returned, before_attempt, run_once, run_connection,
}
use pony_downloader.Http.Retry.Turns.{run_once-IsReady}
use pony_downloader.Http.Attempt.Steady.{IsSteady}
use pony_downloader.Http.Retry.Refused.{IsRefusing}
use pony_downloader.Http.Retry.Stops.{run_connection-returns}
use pony_downloader.Http.Attempt.Offsets.{IsAligned}
use pony_downloader.Http.Attempt.Alignment.{receive_success-IsAligned}
use pony_downloader.Http.Connection.{
  Connection, remain, new_chunk, new_connection, primary, worker, completed_state, failed_state,
  downloading, request_error, invalid_range_response, is_failure_exempt_http_code, is_forbidden,
  is_terminal_range_error, is_range_integrity_error, extract_request_error,
}
use pony_downloader.Http.Split.{
  can_split, pick_split, split_at, split_once, split_rounds, can_steal, pick_slowest, steal_at,
  help_other_connection, remain_seconds,
}
use pony_downloader.Http.Split.Coverage.{cover, split_rounds_lem}
use pony_downloader.Http.Split.Stealing.{help_other_connection_lem}
use pony_downloader.Http.Transfer.{Transfer, start, choose_data, write_data, count_data, writable}
use pony_downloader.Http.Completion.{
  Resource, total_downloaded, state_done, on_download_complete, has_failed, all_chunks_complete,
  integrity_failure,
}
use pony_downloader.Http.Completion.Verdict.{IsServed, refused_is_done, done_lem}
use pony_downloader.Common.Text.{codes, parse_int, parse_uint, scan, signed}
use pony_downloader.Http.Range.{is_strong_etag, validate_range_response}
use pony_downloader.Http.Range.Validation.{IsValidated, validate_range_response_lem}

abbrev limit_5 : SlowStart
limit_5 = new_slow_start 5

launched-le-max_example :
    let s = run (new_slow_start 5) (expand 1 ∷ succeed ∷ expand 9 ∷ []) in
    (s.total_launched ≤ 5)
    × (get_next_batch_size s ≤ 5 - s.total_launched)
    × (1 ≤ s.next_batch_size)
    × ((s.next_batch_size ≡ 1) ⊎ (s.next_batch_size ≤ 5))
launched-le-max_example = launched-le-max 5 (expand 1 ∷ succeed ∷ expand 9 ∷ [])

limit_5_quiet : limit_5.expansion_signalled ≡ false
unfolding new_slow_start
limit_5_quiet = refl

batch_resolved_example :
    let before = run_batch (fails ∷ responds ∷ fails ∷ []) (commit_batch limit_5 4) in
    (before.expansion_signalled ≡ false)
    × ((on_connect_success before).0.expansion_signalled ≡ true)
    × ((on_connect_success before).1 ≡ true)
batch_resolved_example = batch_resolved limit_5 limit_5_quiet (fails ∷ responds ∷ fails ∷ [])

batch_stalls_example :
    (run_batch (fails ∷ responds ∷ fails ∷ []) (commit_batch limit_5 3)).expansion_signalled ≡ false
batch_stalls_example = batch_stalls limit_5 limit_5_quiet (responds ∷ fails ∷ []) (omega arith)

abbrev one_connection : List Connection
one_connection = new_connection 0 primary (new_chunk (pos 0) (pos 4999999)) ∷ []

-- Two new connections take the latter halves of the largest remainders.
halving :
    split_rounds 2 one_connection
    ≡ new_connection 0 primary (new_chunk (pos 0) (pos 1249999))
      ∷ new_connection 1 worker (new_chunk (pos 2500000) (pos 4999999))
      ∷ new_connection 2 worker (new_chunk (pos 1250000) (pos 2499999))
      ∷ []
unfolding split_rounds split_once pick_split split_at can_split remain ◌+ℤ◌ ◌-ℤ◌ half
halving = refl

split_rounds_example :
    (cover (pos 3000000) (split_rounds 2 one_connection) ≡ cover (pos 3000000) one_connection)
    × (length one_connection ≤ length (split_rounds 2 one_connection))
    × (length (split_rounds 2 one_connection) ≤ length one_connection + 2)
split_rounds_example = split_rounds_lem 2 one_connection (pos 3000000)

abbrev idle_helper : Connection
idle_helper = new_connection 1 worker (new_chunk (pos 5000000) (pos 4999999))

abbrev helped : List Connection
helped =
    new_connection 0 primary (new_chunk (pos 0) (pos 2499998))
    ∷ new_connection 1 worker (new_chunk (pos 2499999) (pos 4999999))
    ∷ []

abbrev slow_and_idle : List Connection
slow_and_idle = new_connection 0 primary (new_chunk (pos 0) (pos 4999999)) ∷ idle_helper ∷ []

help_runs : help_other_connection 1 slow_and_idle ≡ some helped
unfolding help_other_connection pick_slowest can_steal steal_at remain_seconds remain ◌+ℤ◌ ◌-ℤ◌ half
help_runs = refl

help_other_connection_example :
    (cover (pos 7) helped ≡ cover (pos 7) slow_and_idle) × (length helped ≡ length slow_and_idle)
unfolding remain ◌+ℤ◌ ◌-ℤ◌
help_other_connection_example =
    help_other_connection_lem (pos 7) 1 idle_helper (pos 4999999) slow_and_idle refl refl
      (omega arith) helped help_runs

-- A resource of ten bytes, read by one connection in two pieces.
abbrev ten_bytes : Transfer
ten_bytes = start (pos 0) (pos 9)

abbrev primary_of_ten : Connection
primary_of_ten = new_connection 0 primary (new_chunk (pos 0) (pos 9))

-- Six bytes are read, written and counted, and then a buffer of which four bytes fit.
abbrev first_read : Transfer
first_read = count_data 0 6 (write_data 0 (pos 0) 6 (choose_data 0 primary_of_ten 6 ten_bytes))

abbrev after_six : Connection
after_six = record primary_of_ten {
  chunk = record { begin = pos 0; end = some (pos 9); downloaded = pos 6 };
  downloaded = pos 6;
}

abbrev second_read : Transfer
second_read = count_data 0 4 (write_data 0 (pos 6) 4 (choose_data 0 after_six 8192 first_read))

-- Of ten bytes one connection has fetched the first five.
abbrev fetched : Connection
fetched = record (new_connection 0 primary (new_chunk (pos 0) (pos 4))) {
  chunk = record { begin = pos 0; end = some (pos 4); downloaded = pos 5 };
  downloaded = pos 5;
  state = completed_state;
  completed = true;
}

-- The server has refused the one for the others.
abbrev refused : Connection
refused = record (new_connection 1 worker (new_chunk (pos 5) (pos 9))) {
  state = failed_state;
  failed = true;
  last_err = some (request_error 403);
}

abbrev corrupt : Connection
corrupt = record refused { last_err = some invalid_range_response }

abbrev half_fetched : Resource
half_fetched = record { range = true; size = pos 10 }

refused_is_done_example :
    on_download_complete half_fetched none (fetched ∷ refused ∷ []) ≡ state_done
unfolding is_forbidden is_terminal_range_error extract_request_error is_range_integrity_error remain
    ◌-ℤ◌ ◌+ℤ◌
refused_is_done_example = refused_is_done half_fetched none (fetched ∷ refused ∷ []) refl refl

done_lem_example :
    ((pos 1 ≤ℤ half_fetched.size) × (half_fetched.size ≤ℤ total_downloaded none (fetched ∷ [])))
    ⊎ (IsServed half_fetched (fetched ∷ []) ⊎ (count has_failed (fetched ∷ []) ≡ 0))
unfolding on_download_complete all_chunks_complete integrity_failure remain ◌+ℤ◌ ◌-ℤ◌
done_lem_example = done_lem half_fetched none (fetched ∷ []) refl refl

-- The tests of a strong entity tag.
weak_etag : is_strong_etag (codes "W/\"a\"") ≡ false
unfolding is_strong_etag
weak_etag = refl

empty_etag : is_strong_etag (codes "\"\"") ≡ true
unfolding is_strong_etag
empty_etag = refl

open_etag : is_strong_etag (codes "\"") ≡ false
unfolding is_strong_etag
open_etag = refl

unknown_total :
    validate_range_response (codes "bytes 0-4/*") (pos 5) (pos 0) (some (pos 4)) (pos 10) ≡ none
unfolding validate_range_response parse_int parse_uint scan signed
unknown_total = refl

validate_range_response_lem_example :
    IsValidated (codes "Bytes 2-8/9") (pos 2) none (pos 9) (pos 7) (pos 7, pos 9)
unfolding validate_range_response parse_int parse_uint scan signed ◌+ℤ◌ ◌-ℤ◌
validate_range_response_lem_example =
    validate_range_response_lem (codes "Bytes 2-8/9") (pos 7) (pos 2) none (pos 9) (pos 7, pos 9)
      refl

-- The response of `Resolve` has been read up to 5 when the first range, from 3 on, is answered.
abbrev speculative : Fetch
speculative = record {
  res = record { range = true; size = pos 10 };
  connections = 1;
  conn = new_connection 0 primary (new_chunk (pos 3) (pos 9));
  if_range = [];
  validator_pinned = false;
  reprobe_eligible = false;
  size_unknown = false;
  resolve_fallback = true;
  resolve_data_pos = pos 3;
  file = some (pos 10);
}

abbrev prefetching : Environment
prefetching = record {
  truncates = true;
  prefetched = pos 5;
  prefetch_size = none;
  cancelled = false;
}

abbrev ranged_plan : Plan
ranged_plan = record {
  fetch = speculative;
  start = pos 3;
  end = some (pos 9);
  range_requested = true;
  resume_probe = false;
  if_range = [];
  intentional_restart = false;
}

abbrev ranged_answer : Response
ranged_answer = record {
  status = 206;
  content_range = codes "bytes 3-9/10";
  content_length = pos 7;
  validator = [];
}

abbrev overlapping_body : Body
overlapping_body = record {
  fetch = record speculative {
    resolve_fallback = false;
    resolve_data_pos = pos 5;
    conn = record speculative.conn {
      chunk = record { begin = pos 3; end = some (pos 9); downloaded = pos 2 };
      downloaded = pos 5;
      state = downloading;
    };
  };
  expected = pos 7;
  discard = pos 2;
}

speculative-IsReady : IsReady speculative
speculative-IsReady = record {
  fresh = λ _. (refl, refl);
  from_first = λ e. absurd (cc);
  prefixed = λ e. absurd (cc);
}

receive_success-IsAligned_example : IsAligned (pos 3) overlapping_body
unfolding prepare receive_success remain validate_range_response parse_int parse_uint scan signed
    ◌+ℤ◌ ◌-ℤ◌
receive_success-IsAligned_example =
    receive_success-IsAligned prefetching false speculative ranged_answer {p = ranged_plan}
      {b = overlapping_body} speculative-IsReady refl (inr refl) refl

-- The server knows nothing of the address.
abbrev not_found : Response
not_found = record { status = 404; content_range = []; content_length = pos 0; validator = [] }

abbrev refusing : World
refusing = record {
  env = prefetching;
  cancelled_before = false;
  own_range = false;
  answer = some not_found;
  has_redirect = false;
  fallback = none;
  reads = [];
  helped = none;
}

refusing-IsRefusing : IsRefusing refusing
unfolding is_failure_exempt_http_code
refusing-IsRefusing = record {
  response = not_found;
  answers = refl;
  fails = refl;
  counts = refl;
  direct = refl;
  begins = refl;
  alone = refl;
}

run_connection-returns_example :
    (r : Run) × (run_connection (refusing ∷ refusing ∷ refusing ∷ []) speculative none ≡ returned r)
run_connection-returns_example =
    run_connection-returns (refusing ∷ refusing ∷ refusing ∷ []) speculative none
      (refusing-IsRefusing, (refusing-IsRefusing, (refusing-IsRefusing, tt))) (omega arith)

-- A server that is overloaded does not count: the loop goes on.
abbrev overloaded : World
overloaded = record refusing { answer = some (record not_found { status = 503 }) }

abbrev goes_on : Turn → Bool
goes_on (again r) = true
goes_on (returned r) = false

overload_goes_on :
    goes_on (
      run_connection
        (overloaded ∷ overloaded ∷ overloaded ∷ overloaded ∷ [])
        (record speculative { resolve_fallback = false })
        none)
    ≡ true
unfolding run_connection remain ◌+ℤ◌ ◌-ℤ◌ is_range_integrity_error
overload_goes_on = refl

-- The body is read to its end, and what was there already is not written again.
whole_body :
    (download_chunk_once
      (record refusing { answer = some ranged_answer; reads = got 3 ∷ got 4 ∷ end_of_stream ∷ [] })
      speculative).ending
    ≡ done
unfolding download_chunk_once read_data writable remain validate_range_response parse_int parse_uint
    scan signed ◌+ℤ◌ ◌-ℤ◌
whole_body = refl

abbrev first_round : Run
first_round = record { fetch = speculative; slow_start = none; retries = 0 }

abbrev second_round : Run
second_round = record {
  fetch = record speculative {
    conn = record speculative.conn { state = failed_state; last_err = some (request_error 503) };
  };
  slow_start = none;
  retries = 1;
}

run_once-IsReady_example : IsSteady second_round.fetch × IsReady (before_attempt second_round).fetch
unfolding run_once is_range_integrity_error remain ◌+ℤ◌ ◌-ℤ◌
run_once-IsReady_example =
    run_once-IsReady overloaded first_round {r' = second_round} refl
      (record { fresh = λ _. (refl, refl); from_first = λ e. absurd (cc) }) refl
