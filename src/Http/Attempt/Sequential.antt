-- ===== src/Http/Attempt/Sequential.antt =====
-- internal/protocol/http/fetcher.go: the fetcher as one attempt sees it, and the transitions between
-- parallel ranges and one sequential response.
use pony_downloader.Common.{
  ℕ, ℤ, pos, ◌-ℤ◌, ltb_ℤ, leb_ℤ, Bool, true, false, not, ◌&&◌, ◌||◌, Option, none, some, ◌==◌,
  if◌then◌else◌, [],
}
use pony_downloader.Common.Text.{Bytes, is_empty}
use pony_downloader.Http.Connection.{
  Connection, set_end, new_chunk, completed_state, FetchError, range_request_ignored,
  invalid_range_response, other_error,
}
use pony_downloader.Http.Completion.{Resource, reset_connection_for_restart}

-- `file` is the length of the target file, none if it is not open.
pub record Fetch : Type 0 where
  pub res : Resource
  pub connections : ℕ
  pub conn : Connection
  pub if_range : Bytes
  pub validator_pinned : Bool
  pub reprobe_eligible : Bool
  pub size_unknown : Bool
  pub resolve_fallback : Bool
  pub resolve_data_pos : ℤ
  pub file : Option ℤ

-- `truncates`: `Truncate` has no error. `prefetched`: the bytes that `stopPrefetchAndCopyData` has
-- copied. `prefetch_size`: the size that the prefetch ended with, none if it failed. `cancelled`: the
-- context ends before the prefetch does.
pub record Environment : Type 0 where
  pub truncates : Bool
  pub prefetched : ℤ
  pub prefetch_size : Option ℤ
  pub cancelled : Bool

-- the body of an accepted response: its expected length, -1 for none, and the bytes at its start that
-- are there already
pub record Body : Type 0 where
  pub fetch : Fetch
  pub expected : ℤ
  pub discard : ℤ

pub data Tried : Type 0 where
  accepted : Body → Tried
  refused : Fetch → FetchError → Tried

abbrev pub restart_connection : Fetch → Fetch
restart_connection f = record f { conn = reset_connection_for_restart f.res f.conn }

-- `Truncate` of the open file, and what follows it
abbrev pub truncate : Environment → ℤ → (Fetch → Tried) → Fetch → Tried
truncate env size next f = elim f.file [
  | none ↦ refused f other_error
  | some n ↦ if env.truncates then next (record f { file = some size }) else refused f other_error
]

-- `resolveOpenEndedRange`
abbrev pub resolve_open_ended_range : Environment → ℤ → (Fetch → Tried) → Fetch → Tried
resolve_open_ended_range env total next f =
    if leb_ℤ total (pos 0)
    then refused f invalid_range_response
    else truncate env total
        (λ f'. next (record f' {
          res = record f'.res { size = total };
          conn = record f'.conn { chunk = set_end f'.conn.chunk (total -ℤ pos 1) };
        }))
        f

-- what a full response leaves of the state for ranges
abbrev pub sequential : Bytes → Fetch → Fetch
sequential validator f =
    record (restart_connection (record f {
      res = record f.res { range = false };
      reprobe_eligible = true;
      validator_pinned = false;
      if_range = validator;
    })) { resolve_data_pos = pos 0 }

-- `fallbackToSequentialDownload`
abbrev pub fallback_to_sequential_download : Bytes → (Fetch → Tried) → Fetch → Tried
fallback_to_sequential_download validator next f =
    if not f.res.range
    then next f
    else if not (f.conn.id == 0) || not (f.connections == 1)
    then refused f range_request_ignored
    else next (sequential validator f)

-- `restartSequentialDownload`
abbrev pub restart_sequential_download : Bytes → Fetch → Fetch
restart_sequential_download validator f = sequential validator f

-- `resizeSequentialResource`
abbrev pub resize_sequential_resource : Environment → ℤ → (Fetch → Tried) → Fetch → Tried
resize_sequential_resource env size next f =
    if ltb_ℤ size (pos 0)
    then refused f other_error
    else truncate env size
        (λ f'. next (record f' { res = record f'.res { size = size }; size_unknown = false })) f

-- `beginUnknownSizeSequentialResource`
abbrev pub begin_unknown_size_sequential_resource : Environment → (Fetch → Tried) → Fetch → Tried
begin_unknown_size_sequential_resource env next f =
    truncate env (pos 0)
      (λ f'. next (record f' {
        res = record f'.res { size = pos 0 };
        size_unknown = true;
        if_range = [];
        validator_pinned = false;
      }))
      f

-- `CompareAndSwap(true, false)` of `resolveFallback` by the first connection
abbrev pub takes_over : Fetch → Bool
takes_over f = f.conn.id == 0 && f.resolve_fallback

abbrev pub drop_resolve_fallback : Fetch → Fetch
drop_resolve_fallback f = if takes_over f then record f { resolve_fallback = false } else f

-- the chunk that goes on where the prefetch has ended
abbrev pub taken_over : Environment → ℤ → Fetch → Fetch
taken_over env start f = record f {
  resolve_fallback = false;
  resolve_data_pos = env.prefetched;
  validator_pinned = f.validator_pinned || not (is_empty f.if_range);
  conn = record f.conn {
    chunk = record f.conn.chunk { downloaded = env.prefetched -ℤ start };
    downloaded = env.prefetched;
  };
}

-- `commitResolveTakeover`
abbrev pub commit_resolve_takeover : Environment → ℤ → (ℤ → Fetch → Tried) → Fetch → Tried
commit_resolve_takeover env start next f =
    if not (takes_over f)
    then next (pos 0) f
    else if ltb_ℤ env.prefetched start || ltb_ℤ f.res.size env.prefetched
    then refused (record f { resolve_fallback = false }) other_error
    else next (env.prefetched -ℤ start) (taken_over env start f)

-- the prefetch has all the bytes of the resource, where its size is known
abbrev pub prefetch_complete : Environment → Fetch → Bool
prefetch_complete env f = elim env.prefetch_size [
  | none ↦ false
  | some n ↦ not (ltb_ℤ (pos 0) f.res.size) || leb_ℤ n f.res.size && leb_ℤ f.res.size n
]

abbrev pub completed_by_prefetch : ℤ → Fetch → Fetch
completed_by_prefetch prefetched f = record f {
  resolve_fallback = false;
  resolve_data_pos = prefetched;
  res = record {
    range = false;
    size = if ltb_ℤ (pos 0) f.res.size then f.res.size else prefetched;
  };
  reprobe_eligible = false;
  validator_pinned = false;
  conn = record f.conn {
    chunk = record (new_chunk (pos 0) (prefetched -ℤ pos 1)) { downloaded = prefetched };
    downloaded = prefetched;
    completed = true;
    state = completed_state;
    failed = false;
    last_err = none;
  };
}

-- `completeFromResolveFallback`
unfoldable pub complete_from_resolve_fallback : Environment → Fetch → Fetch × Bool
complete_from_resolve_fallback env f =
    let known_size = ltb_ℤ (pos 0) f.res.size in
    let dropped = record f { resolve_fallback = false } in
    if not (takes_over f)
    then (f, false)
    else if env.cancelled || not (prefetch_complete env f)
    then (dropped, false)
    else if known_size && not (leb_ℤ env.prefetched f.res.size && leb_ℤ f.res.size env.prefetched)
    then (dropped, false)
    else (completed_by_prefetch env.prefetched f, true)
