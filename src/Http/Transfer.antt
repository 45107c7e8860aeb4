-- ===== src/Http/Transfer.antt =====
-- internal/protocol/http/fetcher.go, the write loop of `downloadChunkOnce` in range mode, together
-- with the splitting and the stealing of chunks: connections as threads whose steps interleave. Each
-- critical section of `connMu` is one step, and so is the write to the file between the two of them. The
-- file is the number of times that each byte of it has been written; no write to it fails.
pub mod Phases
pub mod Steps
pub mod Exact
use pony_downloader.Common.{
  ℕ, zero, suc, ◌+◌, ◌≤◌, ◌≡◌, length, ℤ, pos, pos_part, ◌+ℤ◌, ◌≤ℤ◌, ltb_ℤ, leb_ℤ, Bool, ◌&&◌, List,
  [], ◌∷◌, some, if◌then◌else◌, get_elem?, modify,
}
use pony_downloader.Http.Connection.{Chunk, Connection, remain, new_chunk, new_connection, primary}
use pony_downloader.Http.Split.{split_once, help_other_connection}

-- How many of n bytes that were read go to the file: those within the chunk's present bounds.
unfoldable pub writable : ℕ → Chunk → ℕ
writable n c =
    if leb_ℤ (remain c) (pos 0)
    then 0
    else if ltb_ℤ (remain c) (pos n)
    then pos_part (remain c)
    else n

-- `conn.Chunk.Downloaded += n` and `conn.Downloaded += n`
abbrev pub advance : ℕ → Connection → Connection
advance n c = record c {
  chunk = record (c.chunk) { downloaded = c.chunk.downloaded +ℤ pos n };
  downloaded = c.downloaded +ℤ pos n;
}

-- the length of `buf` in `runConnection`
abbrev pub buffer_size : ℕ
buffer_size = 8192

-- Where the goroutine of a connection is: outside the locks with nothing to write, with `data` and
-- `writeOffset` chosen, or with `data` in the file and not yet counted. The data is its length.
pub data Phase : Type 0 where
  at_rest : Phase
  to_write : ℤ → ℕ → Phase
  to_count : ℕ → Phase

abbrev pub set_at : ℕ → Phase → (ℕ → Phase) → ℕ → Phase
set_at zero x phases zero = x
set_at zero x phases (suc j) = phases (suc j)
set_at (suc i) x phases zero = phases zero
set_at (suc i) x phases (suc j) = set_at i x (λ k. phases (suc k)) j

pub record Transfer : Type 0 where
  pub connections : List Connection
  pub phases : ℕ → Phase
  pub written : ℤ → ℕ

-- `WriteAt` of n bytes at an offset
abbrev pub write_at : ℤ → ℕ → (ℤ → ℕ) → ℤ → ℕ
write_at offset n written p =
    written p + (if leb_ℤ offset p && ltb_ℤ p (offset +ℤ pos n) then 1 else 0)

-- The first section: the connection c at place i has read n bytes, and looks at its present bounds.
unfoldable pub choose_data : ℕ → Connection → ℕ → Transfer → Transfer
choose_data i c n t = if leb_ℤ (remain c.chunk) (pos 0) then t else record t {
  phases = set_at i (to_write (c.chunk.begin +ℤ c.chunk.downloaded) (writable n c.chunk)) t.phases;
}

-- the write to the file
unfoldable pub write_data : ℕ → ℤ → ℕ → Transfer → Transfer
write_data i offset k t = record t {
  phases = set_at i (to_count k) t.phases;
  written = write_at offset k t.written;
}

-- the second section
unfoldable pub count_data : ℕ → ℕ → Transfer → Transfer
count_data i k t = record t {
  connections = modify t.connections i (advance k);
  phases = set_at i at_rest t.phases;
}

-- A split starts a goroutine for the new connection, and a connection helps when its own goroutine has
-- left the loop.
pub data Step (t : Transfer) : Transfer → Type 0 where
  split :
      {conns : List Connection}
      → split_once t.connections ≡ some conns
      → Step t (record t {
        connections = conns;
        phases = set_at (length t.connections) at_rest t.phases;
      })
  help :
      (h : ℕ) (helper : Connection) (last : ℤ) {conns : List Connection}
      → get_elem? t.connections h ≡ some helper
      → t.phases h ≡ at_rest
      → helper.chunk.end ≡ some last
      → remain helper.chunk ≤ℤ pos 0
      → help_other_connection h t.connections ≡ some conns
      → Step t (record t { connections = conns })
  choose :
      (i : ℕ) (c : Connection) (last : ℤ) (n : ℕ)
      → get_elem? t.connections i ≡ some c
      → t.phases i ≡ at_rest
      → c.chunk.end ≡ some last
      → n ≤ buffer_size
      → Step t (choose_data i c n t)
  write :
      (i : ℕ) (c : Connection) (offset : ℤ) (k : ℕ)
      → get_elem? t.connections i ≡ some c
      → t.phases i ≡ to_write offset k
      → Step t (write_data i offset k t)
  tally :
      (i : ℕ) (c : Connection) (k : ℕ)
      → get_elem? t.connections i ≡ some c
      → t.phases i ≡ to_count k
      → Step t (count_data i k t)

pub data Reach (s : Transfer) : Transfer → Type 0 where
  here : Reach s s
  next : {t u : Transfer} → Reach s t → Step t u → Reach s u

-- The first connection has the bytes from `first` to `last`, and nothing is written.
abbrev pub start : ℤ → ℤ → Transfer
start first last = record {
  connections = new_connection 0 primary (new_chunk first last) ∷ [];
  phases = λ i. at_rest;
  written = λ p. 0;
}
