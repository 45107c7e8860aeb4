-- ===== src/Http/Attempt.antt =====
-- internal/protocol/http/fetcher.go, `downloadChunkOnce`: the request that one attempt makes for the
-- chunk of a connection, and what it does with the response. The fetcher is seen with the one
-- connection that makes the attempt and the number of all; the file is its length. What the client,
-- the file system and the prefetch of `Resolve` answer stands in `Environment`.
pub mod Sequential
pub mod Reads
pub mod Once
pub mod Planning
pub mod Cases
pub mod Offsets
pub mod Alignment
pub mod Steady
use pony_downloader.Common.{
  ℕ, ℤ, pos, negsuc, ◌+ℤ◌, ◌-ℤ◌, ltb_ℤ, leb_ℤ, eq_ℤ, Bool, true, false, not, ◌&&◌, ◌||◌, Option,
  none, some, ◌==◌, if◌then◌else◌, [],
}
use pony_downloader.Common.Text.{Bytes, is_empty}
use pony_downloader.Http.Connection.{
  Chunk, Connection, remain, open_ended, FetchError, request_error, invalid_range_response,
  is_redirect_expired_error, downloading,
}
use pony_downloader.Http.Completion.{Resource, has_sequential_prefix, reset_connection_for_restart}
use pony_downloader.Http.Range.{validate_range_response}
use pony_downloader.Http.Attempt.Sequential.{
  Fetch, Environment, Tried, accepted, refused, Body, restart_connection, resolve_open_ended_range,
  fallback_to_sequential_download, restart_sequential_download, resize_sequential_resource,
  begin_unknown_size_sequential_resource, commit_resolve_takeover, drop_resolve_fallback,
}

-- `canProbeSequentialResumeLocked`
abbrev pub can_probe_sequential_resume : Fetch → Bool
can_probe_sequential_resume f =
    not f.size_unknown
    && (not (is_empty f.if_range)
        && has_sequential_prefix f.res f.reprobe_eligible f.connections f.conn)

-- the request, with what `downloadChunkOnce` remembers of it
pub record Plan : Type 0 where
  pub fetch : Fetch
  pub start : ℤ
  pub end : Option ℤ
  pub range_requested : Bool
  pub resume_probe : Bool
  pub if_range : Bytes
  pub intentional_restart : Bool

-- the request goes out, or the chunk has nothing left
pub data Prepared : Type 0 where
  nothing_left : Fetch → Prepared
  request : Plan → Prepared

-- a prefix that cannot be resumed is given up before the request
abbrev pub must_restart : Fetch → Bool
must_restart f =
    f.size_unknown
    || has_sequential_prefix f.res f.reprobe_eligible f.connections f.conn
      && not (can_probe_sequential_resume f)

abbrev pub restarted : Fetch → Fetch
restarted f = record (restart_connection f) { resolve_data_pos = pos 0; validator_pinned = false }

-- `own_range`: the headers of the request itself name a range
abbrev pub plan_of : Bool → Bool → Bool → Fetch → Plan
plan_of own_range probe again f = record {
  fetch = f;
  start = f.conn.chunk.begin +ℤ f.conn.chunk.downloaded;
  end = if probe then some (f.res.size -ℤ pos 1) else f.conn.chunk.end;
  range_requested = f.res.range || (probe || own_range);
  resume_probe = probe;
  if_range =
      if probe || f.res.range && (f.validator_pinned || f.resolve_fallback) then f.if_range else [];
  intentional_restart = again;
}

abbrev pub has_nothing_left : Fetch → Bool
has_nothing_left f =
    f.res.range && (not (open_ended f.conn.chunk) && leb_ℤ (remain f.conn.chunk) (pos 0))

abbrev pub plan_for : Bool → Bool → Bool → Fetch → Prepared
plan_for own_range probe again f =
    if has_nothing_left f then nothing_left f else request (plan_of own_range probe again f)

-- `downloadChunkOnce` up to the request
unfoldable pub prepare : Bool → Fetch → Prepared
prepare own_range f =
    plan_for own_range (can_probe_sequential_resume f) (must_restart f)
      (if must_restart f then restarted f else f)

-- what the attempt reads of a response
pub record Response : Type 0 where
  pub status : ℕ
  pub content_range : Bytes
  pub content_length : ℤ
  pub validator : Bytes

abbrev pub is_success : ℕ → Bool
is_success status = status == 200 || status == 206

-- The response of the original address stands in for one that says that the redirect has expired.
abbrev pub final_response : Bool → Option Response → Response → Option Response
final_response has_redirect fallback r =
    if is_success r.status
    then some r
    else if has_redirect && is_redirect_expired_error (some (request_error r.status))
    then fallback
    else none

-- the body is read from here on
abbrev pub start_body : ℤ → ℤ → Fetch → Tried
start_body expected discard f = accepted (record {
  fetch = record f { conn = record f.conn { state = downloading; failed = false } };
  expected = expected;
  discard = discard;
})

-- a full response in sequential mode: its length is the size, or has to be
abbrev pub accept_full : Environment → Bool → Response → Fetch → Tried
accept_full env restart r f =
    if f.res.range
    then start_body (negsuc 0) (pos 0) f
    else if restart
    then (if leb_ℤ (pos 0) r.content_length
        then resize_sequential_resource env r.content_length (start_body r.content_length (pos 0)) f
        else begin_unknown_size_sequential_resource env (start_body (negsuc 0) (pos 0)) f)
    else if ltb_ℤ (pos 0) f.res.size
    then (if leb_ℤ (pos 0) r.content_length && not (eq_ℤ r.content_length f.res.size)
        then refused f invalid_range_response
        else start_body f.res.size (pos 0) f)
    else start_body (negsuc 0) (pos 0) f

-- a 200 to a request for a range
abbrev pub ignore_range : Environment → Plan → Response → Fetch → Tried
ignore_range env p r f =
    if p.resume_probe
    then accept_full env true r (restart_sequential_download r.validator f)
    else fallback_to_sequential_download r.validator (accept_full env true r) f

-- a 200 to a request for no range: any later probe is bound to it
abbrev pub bind_validator : Response → Fetch → Fetch
bind_validator r f = if f.reprobe_eligible then record f { if_range = r.validator } else f

-- The origin has recovered ranges, and the prefix becomes part of a chunk.
abbrev pub recover_range : Fetch → Fetch
recover_range f = record f {
  res = record f.res { range = true };
  reprobe_eligible = false;
  validator_pinned = true;
  size_unknown = false;
  conn = record f.conn {
    chunk = record f.conn.chunk { begin = pos 0; end = some (f.res.size -ℤ pos 1) };
  };
}

abbrev pub accept_range : Plan → ℤ → ℤ → Fetch → Tried
accept_range p expected discard f =
    start_body expected discard (if p.resume_probe then recover_range f else f)

abbrev pub take_over : Environment → Plan → ℤ → Fetch → Tried
take_over env p expected f = commit_resolve_takeover env p.start (accept_range p expected) f

-- a validated 206, of this length and total
abbrev pub accept_partial : Environment → Plan → Option (ℤ × ℤ) → Tried
accept_partial env p none = refused p.fetch invalid_range_response
accept_partial env p (some (expected, total)) =
    if p.fetch.res.range && open_ended p.fetch.conn.chunk
    then resolve_open_ended_range env total (take_over env p expected) p.fetch
    else take_over env p expected p.fetch

-- a response with status 200 or 206
unfoldable pub receive_success : Environment → Plan → Response → Tried
receive_success env p r =
    if r.status == 200
    then (if p.range_requested
        then ignore_range env p r (drop_resolve_fallback p.fetch)
        else accept_full env p.intentional_restart r (bind_validator r p.fetch))
    else if p.range_requested
    then accept_partial env p
        (validate_range_response r.content_range r.content_length p.start p.end p.fetch.res.size)
    else start_body (negsuc 0) (pos 0) p.fetch

-- `downloadChunkOnce` from the response to the first read of its body
unfoldable pub receive : Environment → Bool → Option Response → Plan → Response → Tried
receive env has_redirect fallback p r = elim (final_response has_redirect fallback r) [
  | none ↦ refused p.fetch (request_error r.status)
  | some r' ↦ receive_success env p r'
]
