-- ===== src/Http/Connection.antt =====
-- internal/protocol/http/fetcher.go: a chunk of the resource, the connection that fetches it, and
-- internal/protocol/http/helper.go: how a failed request is classified.
-- A pointer to a connection is its place in the fetcher's list; every connection that the fetcher
-- makes has a chunk, so the tests of `conn.Chunk` against nil are left out.
use pony_downloader.Common.{
  ℕ, ℤ, pos, ◌+ℤ◌, ◌-ℤ◌, Bool, true, false, ◌||◌, ◌&&◌, Option, none, some, leb, ◌==◌,
  if◌then◌else◌,
}

pub data ConnectionState : Type 0 where
  not_started connecting downloading completed_state failed_state : ConnectionState

pub data ConnectionRole : Type 0 where
  resolve_role primary worker : ConnectionRole

pub record Chunk : Type 0 where
  pub begin : ℤ
  pub end : Option ℤ  -- none until an open-ended response reveals the size
  pub downloaded : ℤ

-- `*c.End - c.Begin + 1 - c.Downloaded`; it is called on a chunk with an end alone
unfoldable pub remain : Chunk → ℤ
remain c = elim c.end [ none ↦ pos 0 | some e ↦ e -ℤ c.begin +ℤ pos 1 -ℤ c.downloaded ]

abbrev pub open_ended : Chunk → Bool
open_ended c = elim c.end [ none ↦ true | some e ↦ false ]

abbrev pub set_end : Chunk → ℤ → Chunk
set_end c e = record c { end = some e }

abbrev pub new_chunk : ℤ → ℤ → Chunk
new_chunk b e = record { begin = b; end = some e; downloaded = pos 0 }

abbrev pub new_open_ended_chunk : ℤ → Chunk
new_open_ended_chunk b = record { begin = b; end = none; downloaded = pos 0 }

-- The errors that the fetcher tells apart, whatever wraps them: a status code (`RequestError`), an
-- integrity error of a range response, and any other.
pub data FetchError : Type 0 where
  request_error : ℕ → FetchError
  range_request_ignored invalid_range_response incomplete_response other_error : FetchError

unfoldable pub is_range_integrity_error : FetchError → Bool
is_range_integrity_error range_request_ignored = true
is_range_integrity_error invalid_range_response = true
is_range_integrity_error e = false

unfoldable pub is_terminal_range_error : Option FetchError → Bool
is_terminal_range_error none = false
is_terminal_range_error (some e) = is_range_integrity_error e

unfoldable pub extract_request_error : Option FetchError → Option ℕ
extract_request_error none = none
extract_request_error (some (request_error code)) = some code
extract_request_error (some e) = none

unfoldable pub is_failure_exempt_http_code : ℕ → Bool
is_failure_exempt_http_code code =
    if leb 500 code && leb code 599
    then true
    else code == 429 || code == 408 || code == 440 || code == 499

unfoldable pub should_count_http_failure : Option FetchError → Bool
unfolding extract_request_error is_failure_exempt_http_code
should_count_http_failure e = elim (extract_request_error e) [
  | none ↦ false
  | some code ↦ if is_failure_exempt_http_code code then false else true
]

unfoldable pub is_redirect_expired_error : Option FetchError → Bool
unfolding extract_request_error
is_redirect_expired_error e = elim (extract_request_error e) [
  | none ↦ false
  | some code ↦ code == 401 || code == 403 || code == 404 || code == 410
]

-- `extractRequestError(conn.lastErr)` is a 403, the answer of a server that limits connections
unfoldable pub is_forbidden : Option FetchError → Bool
is_forbidden e = elim (extract_request_error e) [ none ↦ false | some code ↦ code == 403 ]

pub record Connection : Type 0 where
  pub id : ℕ
  pub role : ConnectionRole
  pub state : ConnectionState
  pub chunk : Chunk
  pub downloaded : ℤ
  pub completed : Bool
  pub failed : Bool
  pub exited : Bool
  pub retry_times : ℕ
  pub last_err : Option FetchError
  pub speed : ℤ
  pub last_speed_check : ℤ
  pub last_speed_download : ℤ

abbrev pub is_failed_state : ConnectionState → Bool
is_failed_state failed_state = true
is_failed_state _ = false

abbrev pub is_completed_state : ConnectionState → Bool
is_completed_state completed_state = true
is_completed_state _ = false

-- a connection literal with the fields that the source gives; Go zeroes the others
abbrev pub new_connection : ℕ → ConnectionRole → Chunk → Connection
new_connection id role chunk = record {
  id = id;
  role = role;
  state = not_started;
  chunk = chunk;
  downloaded = pos 0;
  completed = false;
  failed = false;
  exited = false;
  retry_times = 0;
  last_err = none;
  speed = pos 0;
  last_speed_check = pos 0;
  last_speed_download = pos 0;
}
