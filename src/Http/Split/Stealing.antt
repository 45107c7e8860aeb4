-- ===== src/Http/Split/Stealing.antt =====
-- `helpOtherConnection`: a finished connection takes part of the slowest one's bytes.
use pony_downloader.Common.{
  ℕ, ◌+◌, ◌*◌, ◌≡◌, ◌≢◌, refl, ap, ◌∙◌, ℤ, pos, ◌+ℤ◌, ◌-ℤ◌, ◌≤ℤ◌, half, +ℤ_parts, -ℤ_parts, true,
  false, List, [], ◌∷◌, Option, none, some, arith, if◌then◌else◌, if_cases, length, get_elem?,
  modify, count-modify, get_elem?-modify_ne, length-modify, Option-cases, inl, inr,
}
use pony_downloader.Http.Connection.{Chunk, Connection, remain, set_end}
use pony_downloader.Http.Split.{can_steal, pick_slowest, stolen, steal_at, help_other_connection}
use pony_downloader.Http.Split.Coverage.{
  awaits, cover, HasWork, awaits-cut, half_inside, remain_lem, IsSuffix, IsSuffix-tail,
  IsSuffix-head,
}

-- What the loop returns: a connection other than the helper, whose chunk has work.
abbrev HasVictim : ℕ → List Connection → Option ℕ → Type 0
HasVictim h conns none = Unit
HasVictim h conns (some i) =
    (v : Connection) × (get_elem? conns i ≡ some v) × HasWork (pos (512 * 1024)) v.chunk × (h ≢ i)

can_steal_sound :
    (h : ℕ) (seconds : ℤ) (i : ℕ) (c : Connection)
    → can_steal h seconds i c ≡ true
    → HasWork (pos (512 * 1024)) c.chunk × (h ≢ i)
unfolding can_steal
can_steal_sound h seconds i c t = elim (Option-cases c.chunk.end) [
  | inl n ↦ absurd (ground arith)
  | inr (e, s) ↦ ((e, s, ground arith), ground arith)
]

pick_slowest-HasVictim :
    (h : ℕ) (full cs : List Connection) (i : ℕ) (best : Option ℕ) (seconds : ℤ)
    → IsSuffix full cs i
    → HasVictim h full best
    → HasVictim h full (pick_slowest h cs i best seconds)
unfolding pick_slowest
pick_slowest-HasVictim h full [] i best seconds s v = v
pick_slowest-HasVictim h full (c ∷ cs) i best seconds s v =
    pick_slowest-HasVictim h full cs (i + 1) _ _ (IsSuffix-tail full cs c i s) (
      if_cases (HasVictim h full) (can_steal h seconds i c) (some i) best
        (λ t.
          let (work, other) = can_steal_sound h seconds i c t in
          (c, IsSuffix-head full cs c i s, work, other))
        (λ _. v))

-- Help is given to a connection with work, and never to the helper itself.
pub help_other_connection-steal_at :
    (h : ℕ) (conns : List Connection) {conns' : List Connection}
    → help_other_connection h conns ≡ some conns'
    → (i : ℕ) × (v : Connection) × (e : ℤ) × (get_elem? conns i ≡ some v)
      × (v.chunk.end ≡ some e)
      × (pos (512 * 1024) ≤ℤ remain v.chunk)
      × (h ≢ i)
      × (conns' ≡ steal_at conns h i v.chunk e)
unfolding help_other_connection
help_other_connection-steal_at h conns {conns'} t = go (pick_slowest h conns 0 none (pos 0)) refl (
    pick_slowest-HasVictim h conns conns 0 none (pos 0)
      (λ j. ap (get_elem? conns) (let e : j ≡ 0 + j = omega arith in e)) tt)
  where
    go :
        (o : Option ℕ)
        → pick_slowest h conns 0 none (pos 0) ≡ o
        → HasVictim h conns o
        → (i : ℕ) × (v : Connection) × (e : ℤ) × (get_elem? conns i ≡ some v)
          × (v.chunk.end ≡ some e)
          × (pos (512 * 1024) ≤ℤ remain v.chunk)
          × (h ≢ i)
          × (conns' ≡ steal_at conns h i v.chunk e)
    go none q w = absurd (ground arith)
    go (some i) q (v, g, (e, s, r), n) = (i, v, e, g, s, omega arith, n, ground arith)

-- A chunk with nothing left awaits no byte.
pub awaits_finished :
    (p : ℤ) (c : Chunk) (e : ℤ) → c.end ≡ some e → remain c ≤ℤ pos 0 → awaits p c ≡ false
awaits_finished p c e s r = ground (
  arith,
  +ℤ_parts c.begin c.downloaded,
  -ℤ_parts e c.begin,
  +ℤ_parts (e -ℤ c.begin) (pos 1),
  -ℤ_parts (e -ℤ c.begin +ℤ pos 1) c.downloaded,
  remain_lem c e s,
)

module _ (p : ℤ) (h : ℕ) (helper : Connection) (last : ℤ) (conns : List Connection)
    (own : get_elem? conns h ≡ some helper) (ended : helper.chunk.end ≡ some last)
    (finished : remain helper.chunk ≤ℤ pos 0) where
  cover-steal_at :
      (i : ℕ) (v : Connection) (e : ℤ)
      → get_elem? conns i ≡ some v
      → v.chunk.end ≡ some e
      → pos 2 ≤ℤ remain v.chunk
      → h ≢ i
      → cover p (steal_at conns h i v.chunk e) ≡ cover p conns
  unfolding steal_at
  cover-steal_at i v e g s r n =
      let t = e -ℤ half (remain v.chunk) in
      let (low, high) = half_inside v.chunk e s r in
      let helped = modify conns h (λ c. record c { chunk = stolen e v.chunk }) in
      omega (
        arith,
        count-modify (λ c. awaits p c.chunk) conns h (λ c. record c { chunk = stolen e v.chunk })
            helper own,
        count-modify (λ c. awaits p c.chunk) helped i
            (λ c. record c { chunk = set_end c.chunk (t -ℤ pos 1) }) v
            (get_elem?-modify_ne conns h i (λ c. record c { chunk = stolen e v.chunk }) n ∙ g),
        ap {B = ℕ} (λ b. if b then 1 else 0) (awaits_finished p helper.chunk last ended finished),
        awaits-cut p v.chunk e (t -ℤ pos 1) t s (omega (arith, -ℤ_parts t (pos 1))) low
            (omega (arith, -ℤ_parts t (pos 1), high)),
      )

  -- When a connection whose chunk is finished helps another, every byte stays with as many
  -- connections as had it to fetch before, and no connection is added or dropped.
  pub help_other_connection_lem :
      (conns' : List Connection)
      → help_other_connection h conns ≡ some conns'
      → (cover p conns' ≡ cover p conns) × (length conns' ≡ length conns)
  help_other_connection_lem conns' t =
      let (i, v, e, g, s, r, n, q) = help_other_connection-steal_at h conns t in
      (
        ap (cover p) q ∙ cover-steal_at i v e g s (omega (arith, r)) n,
        ap length q ∙ size i v.chunk e,
      )
    where
      size : (i : ℕ) (c : Chunk) (e : ℤ) → length (steal_at conns h i c e) ≡ length conns
      size i c e =
          unfold steal_at in
          (length-modify (modify conns h (λ v. record v { chunk = stolen e c })) i _
            ∙ length-modify conns h _)
