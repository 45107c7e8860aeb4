-- ===== src/Blob/Source.antt =====
-- internal/blob/registry.go: the type `Source` and its methods.
pub mod Failures
pub mod References
use pony_downloader.Common.{
  ℕ, zero, suc, ◌+◌, ◌-◌, Bool, true, false, not, ◌&&◌, ◌||◌, Option, none, some, ltb, ◌==◌,
  if◌then◌else◌,
}

abbrev pub range_source_failure_limit : ℕ
range_source_failure_limit = 2

pub record Source : Type 0 where
  pub revoked : Bool
  pub opens : Bool  -- `open` is not nil
  pub task_refs : ℕ
  pub read_err : Option ℕ  -- the number of an error
  pub range_failures : ℕ
  pub session : Option ℕ
  pub unclaimed : Bool  -- the timer is set

pub data SourceError : Type 0 where
  source_not_found source_revoked source_closed invalid_options : SourceError

abbrev pub some_error : Option ℕ → Bool
some_error none = false
some_error (some e) = true

-- a source as `CreateOpener` makes it
abbrev pub new_source : Option ℕ → Source
new_source session = record {
  revoked = false;
  opens = true;
  task_refs = 0;
  read_err = none;
  range_failures = 0;
  session = session;
  unclaimed = false;
}

-- `s.revoked = true`, `s.open = nil` and `s.session = nil`
abbrev pub revoke : Source → Source
revoke s = record s { revoked = true; opens = false; session = none }

-- the end of `CreateOpener` for a source with a session
abbrev pub start_timer : Source → Source
start_timer s = if s.revoked then s else record s { unclaimed = true }

-- `acquireTask`
unfoldable pub acquire_task : Source → Source × Option SourceError
acquire_task s =
    if s.revoked
    then (s, some source_revoked)
    else (record s { task_refs = s.task_refs + 1; unclaimed = false }, none)

-- `releaseTask`: the session to release, whether this was the last reference, and the error
unfoldable pub release_task : Source → Source × (Option ℕ × (Bool × Option SourceError))
release_task s =
    if s.revoked
    then (s, (none, (false, some source_revoked)))
    else if s.task_refs == 0
    then (s, (none, (false, some source_closed)))
    else if ltb 0 (s.task_refs - 1)
    then (record s { task_refs = s.task_refs - 1 }, (none, (false, none)))
    else (revoke (record s { task_refs = s.task_refs - 1 }), (s.session, (true, none)))

-- `close`, and the session that it releases
unfoldable pub close : Source → Source × Option ℕ
close s = (record (revoke s) { unclaimed = false }, if s.revoked then none else s.session)

-- `expireUnclaimed`: the session to release, and whether the source expired
unfoldable pub expire_unclaimed : Source → Source × (Option ℕ × Bool)
expire_unclaimed s =
    if s.revoked || ltb 0 s.task_refs
    then (record s { unclaimed = false }, (none, false))
    else (revoke (record s { unclaimed = false }), (s.session, true))

-- `acquireOpen`: the session that it retains, and whether there is an opener
unfoldable pub acquire_open : Source → Option ℕ × Bool
acquire_open s = if s.revoked then (none, false) else (s.session, s.opens)

-- `recordSourceError` of an error
unfoldable pub record_source_error : ℕ → Bool → Source → Source
record_source_error e ranged s =
    let counted =
      if not (some_error s.read_err) && ranged
      then record s { range_failures = s.range_failures + 1 }
      else s in
    if not (some_error s.read_err)
      && ranged
      && ltb counted.range_failures range_source_failure_limit
    then counted
    else if some_error counted.read_err
    then counted
    else record counted { read_err = some e }

-- `recordSourceSuccess`
unfoldable pub record_source_success : Bool → Source → Source
record_source_success ranged s =
    if ranged && not (some_error s.read_err) then record s { range_failures = 0 } else s
