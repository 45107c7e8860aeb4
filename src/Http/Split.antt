-- ===== src/Http/Split.antt =====
-- internal/protocol/http/fetcher.go, `expandConnections`: a new connection takes the latter half of
-- the largest remaining chunk; and `helpOtherConnection`: a connection that has finished takes
-- about half of the chunk that would take longest.
pub mod Coverage
pub mod Stealing
use pony_downloader.Common.{
  ℕ, zero, suc, ◌+◌, ◌/◌, ◌*◌, ℤ, pos, negsuc, ◌+ℤ◌, ◌-ℤ◌, ltb_ℤ, Bool, true, false, not, ◌||◌,
  ◌&&◌, List, [], ◌∷◌, ◌++◌, Option, none, some, ◌==◌, if◌then◌else◌, length, get_elem?, modify,
  half,
}
use pony_downloader.Http.Connection.{
  Chunk, Connection, remain, open_ended, set_end, new_chunk, is_failed_state, new_connection,
  worker,
}

abbrev pub steal_threshold_seconds : ℤ
steal_threshold_seconds = pos 3

abbrev pub steal_min_chunk_size : ℤ
steal_min_chunk_size = pos (512 * 1024)

abbrev pub min_split_size_doubled : ℤ
min_split_size_doubled = pos (512 * 1024 * 2)

-- the tests of the inner loop, with the largest remainder so far
unfoldable pub can_split : ℤ → Connection → Bool
can_split max_remain c =
    if c.completed || is_failed_state c.state
    then false
    else if open_ended c.chunk
    then false
    else ltb_ℤ max_remain (remain c.chunk) && ltb_ℤ min_split_size_doubled (remain c.chunk)

-- the inner loop: the place of the connection with most remaining work
unfoldable pub pick_split : List Connection → ℕ → Option ℕ → ℤ → Option ℕ
pick_split [] i best max_remain = best
pick_split (c ∷ cs) i best max_remain =
    let better = can_split max_remain c in
    pick_split cs (i + 1) (if better then some i else best)
      (if better then remain c.chunk else max_remain)

-- the chunk that keeps the first part, and the one that takes the latter half
abbrev pub split_point : ℤ → Chunk → ℤ
split_point chunk_end c = chunk_end -ℤ half (remain c)

-- the victim at place i gives up the latter half of its chunk to a new connection
unfoldable pub split_at : List Connection → ℕ → Chunk → ℤ → List Connection
split_at conns i c chunk_end =
    let point = split_point chunk_end c in
    modify conns i (λ v. record v { chunk = set_end v.chunk point })
    ++ new_connection (length conns) worker (new_chunk (point +ℤ pos 1) chunk_end) ∷ []

-- one round of the outer loop: none if no connection has enough work to split
unfoldable pub split_once : List Connection → Option (List Connection)
split_once conns = elim (pick_split conns 0 none (pos 0)) [
  | none ↦ none
  | some i ↦ elim (get_elem? conns i) [
    | none ↦ none
    | some victim ↦ elim victim.chunk.end [
      | none ↦ none
      | some chunk_end ↦ some (split_at conns i victim.chunk chunk_end)
    ]
  ]
]

-- `for i := 0; i < batchSize; i++`, which ends early when nothing can be split
unfoldable pub split_rounds : ℕ → List Connection → List Connection
split_rounds zero conns = conns
split_rounds (suc n) conns = elim (split_once conns) [
  | none ↦ conns
  | some conns' ↦ split_rounds n conns'
]

-- The remaining seconds of a connection: `remain / speed`, of positive numbers, or a value above
-- the threshold where the speed is not known yet.
unfoldable pub remain_seconds : Connection → ℤ
remain_seconds c = elim c.speed [
  | pos zero ↦ pos 4
  | pos (suc s) ↦ elim (remain c.chunk) [ pos r ↦ pos (r / suc s) | negsuc r ↦ negsuc r ]
  | negsuc s ↦ pos 4
]

-- the tests of `helpOtherConnection` on the connection at place i
unfoldable pub can_steal : ℕ → ℤ → ℕ → Connection → Bool
can_steal helper max_seconds i c =
    if i == helper || c.completed || is_failed_state c.state
    then false
    else if open_ended c.chunk
    then false
    else if ltb_ℤ (remain c.chunk) steal_min_chunk_size
    then false
    else ltb_ℤ steal_threshold_seconds (remain_seconds c) && ltb_ℤ max_seconds (remain_seconds c)

unfoldable pub pick_slowest : ℕ → List Connection → ℕ → Option ℕ → ℤ → Option ℕ
pick_slowest helper [] i best max_seconds = best
pick_slowest helper (c ∷ cs) i best max_seconds =
    let better = can_steal helper max_seconds i c in
    pick_slowest helper cs (i + 1) (if better then some i else best)
      (if better then remain_seconds c else max_seconds)

-- what the helper's chunk becomes
abbrev pub stolen : ℤ → Chunk → Chunk
stolen chunk_end c = new_chunk (chunk_end -ℤ half (remain c)) chunk_end

-- the helper at place h takes the latter half of the chunk of the victim at place i
unfoldable pub steal_at : List Connection → ℕ → ℕ → Chunk → ℤ → List Connection
steal_at conns h i c chunk_end =
    let taken = stolen chunk_end c in
    modify (modify conns h (λ v. record v { chunk = taken })) i
      (λ v. record v { chunk = set_end v.chunk (taken.begin -ℤ pos 1) })

-- `helpOtherConnection` of the connection at place h; none is the result false
unfoldable pub help_other_connection : ℕ → List Connection → Option (List Connection)
help_other_connection h conns = elim (pick_slowest h conns 0 none (pos 0)) [
  | none ↦ none
  | some i ↦ elim (get_elem? conns i) [
    | none ↦ none
    | some victim ↦ elim victim.chunk.end [
      | none ↦ none
      | some chunk_end ↦ some (steal_at conns h i victim.chunk chunk_end)
    ]
  ]
]
