-- ===== src/Http/Completion.antt =====
-- internal/protocol/http/fetcher.go: `onDownloadComplete` and `checkCompletion`, which decide how a
-- download ends, and the resets of a connection that starts again.
pub mod Verdict
use pony_downloader.Common.{
  ℕ, zero, suc, ℤ, pos, negsuc, ◌+ℤ◌, ltb_ℤ, leb_ℤ, Bool, true, false, not, ◌&&◌, ◌||◌, List, [],
  ◌∷◌, Option, none, some, if◌then◌else◌, ◌==◌, ltb, leb, length,
}
use pony_downloader.Http.Connection.{
  Chunk, remain, open_ended, new_chunk, Connection, ConnectionState, not_started, is_failed_state,
  is_completed_state, is_forbidden, FetchError, is_terminal_range_error, extract_request_error,
}

-- `f.meta.Res`, with the fields that the completion reads
pub record Resource : Type 0 where
  pub range : Bool
  pub size : ℤ

-- the bytes that the resolve connection, if there is one, and the others have fetched
abbrev pub total_downloaded : Option Connection → List Connection → ℤ
total_downloaded none [] = pos 0
total_downloaded (some r) [] = r.downloaded
total_downloaded r (c ∷ cs) = c.downloaded +ℤ total_downloaded r cs

abbrev pub is_completed : Connection → Bool
is_completed c = c.completed || is_completed_state c.state

-- `conn.State == connFailed && conn.failed`
abbrev pub has_failed : Connection → Bool
has_failed c = is_failed_state c.state && c.failed

abbrev pub needs_more_data : Resource → Connection → Bool
needs_more_data res c =
    if res.range
    then open_ended c.chunk || ltb_ℤ (pos 0) (remain c.chunk)
    else if ltb_ℤ (pos 0) res.size
    then ltb_ℤ c.downloaded res.size
    else not (is_completed c)

-- the server refused the connection with a 403
abbrev pub is_refused : Connection → Bool
is_refused c = has_failed c && is_forbidden c.last_err

-- the connection still waits for bytes
abbrev pub is_short : Resource → Connection → Bool
is_short res c = needs_more_data res c && not (is_completed c)

-- The loop over the chunks: a connection that the server has refused with a 403 is passed over.
unfoldable pub all_chunks_complete : Resource → List Connection → Bool
all_chunks_complete res [] = true
all_chunks_complete res (c ∷ cs) =
    let rest = all_chunks_complete res cs in
    if is_short res c && not (is_refused c) then false else rest

abbrev pub download_complete : Resource → Option Connection → List Connection → Bool
download_complete res r cs = ltb_ℤ (pos 0) res.size && leb_ℤ res.size (total_downloaded r cs)

-- the first connection that ended in an integrity error
unfoldable pub integrity_failure : List Connection → Option Connection
integrity_failure [] = none
integrity_failure (c ∷ cs) =
    let rest = integrity_failure cs in
    if has_failed c && is_terminal_range_error c.last_err then some c else rest

-- the first connection that failed otherwise than with a 403
unfoldable pub other_failure : List Connection → Option Connection
other_failure [] = none
other_failure (c ∷ cs) =
    let rest = other_failure cs in
    if has_failed c && not (is_forbidden c.last_err) then some c else rest

pub data FetcherState : Type 0 where
  state_done : FetcherState
  state_error : Connection → FetcherState  -- the connection whose error is reported

-- `onDownloadComplete`
unfoldable pub on_download_complete : Resource → Option Connection → List Connection → FetcherState
on_download_complete res r cs = elim (integrity_failure cs) [
  | some c ↦ state_error c
  | none ↦
      if not (download_complete res r cs) && not (all_chunks_complete res cs)
      then (elim (other_failure cs) [ none ↦ state_done | some c ↦ state_error c ])
      else state_done
]

-- the loop of `checkCompletion` over the connections
unfoldable pub all_ended : List Connection → Bool
all_ended [] = true
all_ended (c ∷ cs) =
    let rest = all_ended cs in
    if not (is_completed c) && not (is_failed_state c.state) then false else rest

abbrev pub resolve_ended : Option Connection → Bool
resolve_ended none = true
resolve_ended (some r) = is_completed r

-- `checkCompletion`
unfoldable pub check_completion : Resource → Option Connection → List Connection → Bool
check_completion res r cs =
    if download_complete res r cs then true else resolve_ended r && all_ended cs

-- `resetConnectionForRestart` of a connection with a chunk
abbrev pub reset_connection_for_restart : Resource → Connection → Connection
reset_connection_for_restart res c = if res.range then c else record c {
  chunk = new_chunk (pos 0) (pos 0);
  downloaded = pos 0;
  completed = false;
  speed = pos 0;
  last_speed_check = pos 0;
  last_speed_download = pos 0;
}

-- `hasSequentialPrefixLocked` of the connection c among n; `eligible` is `rangeReprobeEligible`
abbrev pub has_sequential_prefix : Resource → Bool → ℕ → Connection → Bool
has_sequential_prefix res eligible n c =
    not res.range
    && eligible
    && ltb_ℤ (pos 0) res.size
    && c.id == 0
    && n == 1
    && ltb_ℤ (pos 0) c.chunk.downloaded
    && ltb_ℤ c.chunk.downloaded res.size

-- the tests of `resumeConnections` that leave a connection as it is
abbrev pub stays_ended : Connection → Bool
stays_ended c = is_completed c || has_failed c && (is_forbidden c.last_err || leb 3 c.retry_times)

-- `resumeConnections`: each connection that is to run again, reset where its chunk cannot be
-- continued
abbrev pub resume : Resource → Bool → ℕ → Connection → Connection
resume res eligible n c =
    if stays_ended c
    then c
    else record (if has_sequential_prefix res eligible n c
        then c
        else reset_connection_for_restart res c) { state = not_started; failed = false }
