-- ===== src/Http/Split/Coverage.antt =====
-- Which bytes are still to be fetched, and by how many connections.
use pony_downloader.Common.{
  ℕ, zero, suc, ◌+◌, ◌*◌, ◌≤◌, ◌≡◌, refl, sym, ap, ◌∙◌, ℤ, pos, pos_part, neg_part, ◌+ℤ◌, ◌-ℤ◌,
  ◌≤ℤ◌, leb_ℤ, half, half_parts, +ℤ_parts, -ℤ_parts, Bool, true, ◌&&◌, List, [], ◌∷◌, Option, none,
  some, arith, if◌then◌else◌, if_cases, length, get_elem?, modify, count, count-append,
  length-append, length-modify, count-modify, Option-cases, inl, inr,
}
use native.Mathlib.Nat.{add-zero}
use pony_downloader.Http.Connection.{
  Chunk, Connection, remain, set_end, new_chunk, new_connection, worker,
}
use pony_downloader.Http.Split.{
  can_split, pick_split, split_once, split_rounds, split_at, split_point,
}

-- Byte p is among those that the connection has still to fetch.
abbrev pub awaits : ℤ → Chunk → Bool
awaits p c = leb_ℤ (c.begin +ℤ c.downloaded) p && elim c.end [ none ↦ true | some e ↦ leb_ℤ p e ]

-- How many connections have byte p to fetch.
abbrev pub cover : ℤ → List Connection → ℕ
cover p = count (λ c. awaits p c.chunk)

-- A chunk whose remainder is at least `least`.
abbrev pub HasWork : ℤ → Chunk → Type 0
HasWork least c = (e : ℤ) × (c.end ≡ some e) × (least ≤ℤ remain c)

-- A chunk is cut in two, where the second part starts one after the end q of the first: each of its
-- bytes is in one part.
pub awaits-cut :
    (p : ℤ) (c : Chunk) (e q t : ℤ)
    → c.end ≡ some e
    → pos_part t + neg_part q ≡ pos_part q + neg_part t + 1
    → c.begin +ℤ c.downloaded ≤ℤ t
    → q ≤ℤ e
    → (if awaits p c then 1 else 0)
      ≡ (if awaits p (set_end c q) then 1 else 0) + (if awaits p (new_chunk t e) then 1 else 0)
awaits-cut p c e q t s n h k = ground (arith, +ℤ_parts t (pos 0))

pub remain_lem :
    (c : Chunk) (e : ℤ) → c.end ≡ some e → remain c ≡ e -ℤ c.begin +ℤ pos 1 -ℤ c.downloaded
unfolding remain
remain_lem c e h = ground arith

-- A point that leaves about half of a chunk with work behind it lies inside the chunk.
pub half_inside :
    (c : Chunk) (e : ℤ)
    → c.end ≡ some e
    → pos 2 ≤ℤ remain c
    → (c.begin +ℤ c.downloaded ≤ℤ e -ℤ half (remain c)) × (e -ℤ half (remain c) ≤ℤ e)
half_inside c e h k = omega (
  arith,
  +ℤ_parts,
  -ℤ_parts,
  half_parts (remain c) (omega arith),
  ap pos_part (remain_lem c e h),
  ap neg_part (remain_lem c e h),
)

-- What the loop over the connections returns: a place whose chunk has work.
abbrev HasVictim : ℤ → List Connection → Option ℕ → Type 0
HasVictim least conns none = Unit
HasVictim least conns (some i) =
    (v : Connection) × (get_elem? conns i ≡ some v) × HasWork least v.chunk

-- The connections from place i on.
abbrev pub IsSuffix : List Connection → List Connection → ℕ → Type 0
IsSuffix full cs i = (j : ℕ) → get_elem? cs j ≡ get_elem? full (i + j)

pub IsSuffix-tail :
    (full cs : List Connection) (c : Connection) (i : ℕ)
    → IsSuffix full (c ∷ cs) i
    → IsSuffix full cs (i + 1)
IsSuffix-tail full cs c i h j =
    h (suc j) ∙ ap (get_elem? full) (let e : i + suc j ≡ i + 1 + j = omega arith in e)

pub IsSuffix-head :
    (full cs : List Connection) (c : Connection) (i : ℕ)
    → IsSuffix full (c ∷ cs) i
    → get_elem? full i ≡ some c
IsSuffix-head full cs c i h = ap (get_elem? full) (sym (add-zero i)) ∙ sym (h 0)

can_split_sound :
    (max_remain : ℤ) (c : Connection)
    → can_split max_remain c ≡ true
    → HasWork (pos (512 * 1024 * 2 + 1)) c.chunk
unfolding can_split
can_split_sound max_remain c h = elim (Option-cases c.chunk.end) [
  | inl n ↦ absurd (ground arith)
  | inr (e, s) ↦ (e, s, ground arith)
]

pick_split-HasVictim :
    (full cs : List Connection) (i : ℕ) (best : Option ℕ) (max_remain : ℤ)
    → IsSuffix full cs i
    → HasVictim (pos (512 * 1024 * 2 + 1)) full best
    → HasVictim (pos (512 * 1024 * 2 + 1)) full (pick_split cs i best max_remain)
unfolding pick_split
pick_split-HasVictim full [] i best max_remain s v = v
pick_split-HasVictim full (c ∷ cs) i best max_remain s v =
    pick_split-HasVictim full cs (i + 1) _ _ (IsSuffix-tail full cs c i s) (
      if_cases (HasVictim (pos (512 * 1024 * 2 + 1)) full) (can_split max_remain c) (some i) best
        (λ t. (c, IsSuffix-head full cs c i s, can_split_sound max_remain c t)) (λ _. v))

-- A round that splits has found a connection with work.
pub split_once-split_at :
    (conns : List Connection) {conns' : List Connection}
    → split_once conns ≡ some conns'
    → (i : ℕ) × (v : Connection) × (e : ℤ) × (get_elem? conns i ≡ some v)
      × (v.chunk.end ≡ some e)
      × (pos (512 * 1024) ≤ℤ remain v.chunk)
      × (conns' ≡ split_at conns i v.chunk e)
unfolding split_once
split_once-split_at conns {conns'} h = go (pick_split conns 0 none (pos 0)) refl (
    pick_split-HasVictim conns conns 0 none (pos 0)
      (λ j. ap (get_elem? conns) (let e : j ≡ 0 + j = omega arith in e)) tt)
  where
    go :
        (o : Option ℕ)
        → pick_split conns 0 none (pos 0) ≡ o
        → HasVictim (pos (512 * 1024 * 2 + 1)) conns o
        → (i : ℕ) × (v : Connection) × (e : ℤ) × (get_elem? conns i ≡ some v)
          × (v.chunk.end ≡ some e)
          × (pos (512 * 1024) ≤ℤ remain v.chunk)
          × (conns' ≡ split_at conns i v.chunk e)
    go none q w = absurd (ground arith)
    go (some i) q (v, g, (e, s, r)) = (i, v, e, g, s, omega arith, ground arith)

length-split_at :
    (conns : List Connection) (i : ℕ) (c : Chunk) (e : ℤ)
    → length (split_at conns i c e) ≡ length conns + 1
unfolding split_at
length-split_at conns i c e =
    let q = split_point e c in
    omega (
      arith,
      length-append (modify conns i (λ v. record v { chunk = set_end v.chunk q }))
          (new_connection (length conns) worker (new_chunk (q +ℤ pos 1) e) ∷ []),
      length-modify conns i (λ v. record v { chunk = set_end v.chunk q }),
    )

module _ (p : ℤ) where
  pub cover-split_at :
      (conns : List Connection) (i : ℕ) (v : Connection) (e : ℤ)
      → get_elem? conns i ≡ some v
      → v.chunk.end ≡ some e
      → pos 2 ≤ℤ remain v.chunk
      → cover p (split_at conns i v.chunk e) ≡ cover p conns
  unfolding split_at
  cover-split_at conns i v e g s r =
      let q = split_point e v.chunk in
      let inside = half_inside v.chunk e s r in
      let cut =
        awaits-cut p v.chunk e q (q +ℤ pos 1) s (omega (arith, +ℤ_parts q (pos 1)))
          (omega (arith, +ℤ_parts q (pos 1), inside)) (inside.1) in
      omega (
        arith,
        count-append (λ c. awaits p c.chunk)
            (modify conns i (λ c. record c { chunk = set_end c.chunk q }))
            (new_connection (length conns) worker (new_chunk (q +ℤ pos 1) e) ∷ []),
        count-modify (λ c. awaits p c.chunk) conns i (λ c. record c { chunk = set_end c.chunk q }) v
            g,
        cut,
      )

-- `expandConnections` creates at most as many connections as the batch allows, and every byte stays
-- with as many connections as had it to fetch before.
pub split_rounds_lem :
    (n : ℕ) (conns : List Connection) (p : ℤ)
    → (cover p (split_rounds n conns) ≡ cover p conns)
      × (length conns ≤ length (split_rounds n conns))
      × (length (split_rounds n conns) ≤ length conns + n)
unfolding split_rounds
split_rounds_lem zero conns p = (refl, omega arith, omega arith)
split_rounds_lem (suc n) conns p = elim (Option-cases (split_once conns)) [
  | inl e ↦ rw (e, split_rounds) (refl, omega arith, omega arith)
  | inr (conns', e) ↦
      let (i, v, chunk_end, g, s, r, q) = split_once-split_at conns e in
      let same = cover-split_at p conns i v chunk_end g s (omega (arith, r)) in
      let grown = length-split_at conns i v.chunk chunk_end in
      let (ih, lo, hi) = split_rounds_lem n conns' p in
      rw (e, split_rounds)
        (
          omega (arith, ih, same, ap (cover p) q),
          omega (arith, lo, grown, ap length q),
          omega (arith, hi, grown, ap length q),
        )
]
