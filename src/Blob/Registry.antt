-- ===== src/Blob/Registry.antt =====
-- internal/blob/registry.go: the type `Registry`, without its server. A URL is the number of its
-- source; `parseURL` and the choice of a new number are not modelled. A method takes the locks of the
-- registry, of a source and of a session one after the other: each function below is one critical
-- section, and what a call has still to do behind it is an entry of `unfinished`. `get` changes nothing:
-- it gives a call the pointer to a source, which stays good when the source leaves the map. `created`
-- are the sources that there are pointers to, and `readers` holds, for each response that is being
-- served, the session that it has retained.
pub mod Balance
pub mod Sessions
pub mod Sections
pub mod Continuation
pub mod Later
pub mod Lifetime
use pony_downloader.Common.{
  ℕ, zero, suc, ◌+◌, ◌-◌, ℤ, pos, leb_ℤ, Bool, true, false, not, ◌&&◌, ◌||◌, List, [], ◌∷◌, ◌++◌,
  Option, none, some, ltb, ◌==◌, if◌then◌else◌, remove_at, get_elem?,
}
use pony_downloader.Blob.Source.{
  Source, SourceError, invalid_options, new_source, acquire_task, release_task, close,
  expire_unclaimed, acquire_open, start_timer,
}

-- The rest of a call behind a critical section: of `Release` and of the timer `deleteSource` and then
-- the release of the session, of `Revoke` the two in the other order, and of `Close` one of the sources
-- that it has taken out of the map.
pub data Unfinished : Type 0 where
  delete_then_release release_then_delete : ℕ → Option ℕ → Unfinished
  release_session : Option ℕ → Unfinished
  delete_only close_source : ℕ → Unfinished

pub record Registry : Type 0 where
  pub sources : List ℕ
  pub store : ℕ → Source
  pub readers : List (Option ℕ)
  pub retained : ℕ → ℕ
  pub released : ℕ → ℕ
  pub created : List ℕ
  pub unfinished : List Unfinished

abbrev pub put_source : (ℕ → Source) → ℕ → Source → ℕ → Source
put_source store a s b = if a == b then s else store b

abbrev pub has_session : Option ℕ → ℕ → Bool
has_session none x = false
has_session (some y) x = y == x

-- a call of `Retain` or of `Release` on the session, if there is one
abbrev pub call : Option ℕ → (ℕ → ℕ) → ℕ → ℕ
call s calls x = calls x + (if has_session s x then 1 else 0)

-- `delete(r.sources, src.ID)`
abbrev pub delete_source : ℕ → List ℕ → List ℕ
delete_source a [] = []
delete_source a (b ∷ bs) = if a == b then delete_source a bs else b ∷ delete_source a bs

-- `CreateOpener` under a new number, once the server runs; `serverMu` is held throughout
unfoldable pub create_opener : ℕ → Option ℕ → Bool → ℤ → Registry → Registry × Option SourceError
create_opener a session range size r =
    if range && leb_ℤ size (pos 0) then (r, some invalid_options) else (
      record r {
        sources = a ∷ r.sources;
        store = put_source r.store a (new_source session);
        retained = call session r.retained;
        created = a ∷ r.created;
      },
      none,
    )

-- the end of `CreateOpener`, which starts the timer of a source with a session
unfoldable pub start_unclaimed : ℕ → Registry → Registry
start_unclaimed a r = record r { store = put_source r.store a (start_timer (r.store a)) }

-- `Acquire` of a source that `get` has found
unfoldable pub acquire : ℕ → Registry → Registry × Option SourceError
acquire a r = (
  record r { store = put_source r.store a (acquire_task (r.store a)).0 },
  (acquire_task (r.store a)).1,
)

-- a source is as given, and the call has more to do
abbrev pub leave_unfinished : ℕ → Source → Unfinished → Registry → Registry
leave_unfinished a s u r = record r {
  store = put_source r.store a s;
  unfinished = u ∷ r.unfinished;
}

-- `Release` of a source that `get` has found, up to `releaseTask`
unfoldable pub release : ℕ → Registry → Registry × Option SourceError
release a r =
    let (s, (session, (last, e))) = release_task (r.store a) in
    if last
    then (leave_unfinished a s (delete_then_release a session) r, none)
    else (record r { store = put_source r.store a s }, e)

-- `Revoke` of a source that `get` has found, up to the section of `close`
unfoldable pub revoke_source : ℕ → Registry → Registry
revoke_source a r =
    leave_unfinished a (close (r.store a)).0 (release_then_delete a (close (r.store a)).1) r

-- the timer of a source, up to `expireUnclaimed` of the source
unfoldable pub expire : ℕ → Registry → Registry
expire a r =
    let (s, (session, expired)) = expire_unclaimed (r.store a) in
    if expired
    then leave_unfinished a s (delete_then_release a session) r
    else record r { store = put_source r.store a s }

-- `acquireOpen` in `ServeHTTP` for a source that `getByID` has found; the flag is false when it
-- answers 404
unfoldable pub serve : ℕ → Registry → Registry × Bool
serve a r =
    let (session, opened) = acquire_open (r.store a) in
    if opened
    then (record r { readers = session ∷ r.readers; retained = call session r.retained }, true)
    else (record r { retained = call session r.retained }, false)

-- the end of the response at place k: the deferred release of its session
unfoldable pub finish_reader : ℕ → Registry → Registry
finish_reader k r = elim (get_elem? r.readers k) [
  | none ↦ r
  | some session ↦ record r { readers = remove_at r.readers k; released = call session r.released }
]

abbrev pub close_sources : List ℕ → List Unfinished → List Unfinished
close_sources [] rest = rest
close_sources (a ∷ ts) rest = close_source a ∷ close_sources ts rest

-- `Close` up to its loop: the map is emptied
unfoldable pub close_all : Registry → Registry
close_all r = record r { sources = []; unfinished = close_sources r.sources r.unfinished }

-- the next section of what a call has still to do
abbrev pub carry_on : Unfinished → Registry → Registry
carry_on (delete_then_release a session) r = record r {
  sources = delete_source a r.sources;
  unfinished = release_session session ∷ r.unfinished;
}
carry_on (release_then_delete a session) r = record r {
  released = call session r.released;
  unfinished = delete_only a ∷ r.unfinished;
}
carry_on (release_session session) r = record r { released = call session r.released }
carry_on (delete_only a) r = record r { sources = delete_source a r.sources }
carry_on (close_source a) r =
    leave_unfinished a (close (r.store a)).0 (release_session (close (r.store a)).1) r

-- the unfinished call at place k goes on
unfoldable pub continue_call : ℕ → Registry → Registry
continue_call k r = elim (get_elem? r.unfinished k) [
  | none ↦ r
  | some u ↦ carry_on u (record r { unfinished = remove_at r.unfinished k })
]
