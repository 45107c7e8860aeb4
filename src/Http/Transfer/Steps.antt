-- ===== src/Http/Transfer/Steps.antt =====
-- The account of the bytes behind each step of a transfer.
use pony_downloader.Common.{
  ℕ, zero, suc, ◌+◌, ◌*◌, ◌≤◌, ◌≡◌, ◌≢◌, ◌⊎◌, inl, inr, refl, ap, sym, ◌∙◌, subst, ℤ, pos, pos_part,
  neg_part, ◌+ℤ◌, ◌-ℤ◌, ◌≤ℤ◌, ltb_ℤ, leb_ℤ, half, +ℤ_parts, -ℤ_parts, false, ◌&&◌, some, arith,
  if◌then◌else◌, if_cases, length, length-modify, get_elem?, get_elem?-modify_ne, modify,
}
use pony_downloader.Http.Connection.{
  Chunk, Connection, remain, set_end, new_chunk, new_connection, worker,
}
use pony_downloader.Http.Split.{split_point, split_at, stolen, steal_at}
use pony_downloader.Http.Split.Coverage.{awaits, remain_lem}
use pony_downloader.Http.Split.Stealing.{awaits_finished}
use pony_downloader.Http.Transfer.{
  Transfer, Phase, at_rest, to_write, to_count, set_at, buffer_size, writable, advance, write_at,
  choose_data, write_data, count_data, start,
}
use pony_downloader.Http.Transfer.Phases.{
  weight, uncovered, HasRoom, IsFit, AllFit, AllFit-get, uncovered-modify, AllFit-modify,
  uncovered-set_at, AllFit-set_at, uncovered-append, AllFit-append, IsCut, half_beyond, weight-cut,
  IsFit-cut,
}

abbrev pub between : ℤ → ℤ → ℤ → ℕ
between first last p = if leb_ℤ first p && leb_ℤ p last then 1 else 0

-- Each byte of the range is either to be written by one connection or written once, and no other byte
-- is either; and every phase fits the chunk of its connection.
pub record IsExact (first last : ℤ) (t : Transfer) : Type 0 where
  pub each : (p : ℤ) → uncovered p t.phases t.connections + t.written p ≡ between first last p
  pub fit : AllFit t.phases t.connections

pub start-IsExact : (first last : ℤ) → IsExact first last (start first last)
start-IsExact first last = record {
  each = λ p. ground (arith, +ℤ_parts first (pos 0));
  fit = (tt, tt);
}

set_at-same : (i : ℕ) (x : Phase) (phases : ℕ → Phase) → set_at i x phases i ≡ x
set_at-same zero x phases = refl
set_at-same (suc i) x phases = set_at-same i x (λ k. phases (suc k))

writable-HasRoom :
    (n : ℕ) (c : Chunk) (e : ℤ)
    → c.end ≡ some e
    → n ≤ buffer_size
    → leb_ℤ (remain c) (pos 0) ≡ false
    → HasRoom (writable n c) c
unfolding writable
writable-HasRoom n c e ended small more = record {
  small = ground (arith, small, more);
  last = e;
  ended = ended;
  room = ground (arith, more);
}

-- A range from x is cut k bytes further, at y, which is also the end of the first part.
cut_front :
    (p x e y z : ℤ) (k : ℕ)
    → pos_part y + neg_part x ≡ pos_part x + neg_part y + k
    → pos_part z + neg_part x ≡ pos_part x + neg_part z + k
    → (pos_part x + k + neg_part e ≤ pos_part e + neg_part x + 1) ⊎ (k ≡ 0)
    → (if leb_ℤ x p && leb_ℤ p e then 1 else 0)
      ≡ (if leb_ℤ y p && leb_ℤ p e then 1 else 0) + (if leb_ℤ x p && ltb_ℤ p z then 1 else 0)
cut_front p x e y z k h g b = ground arith

remain_bound :
    (c : Chunk) (last : ℤ) (k : ℕ)
    → c.end ≡ some last
    → (pos k ≤ℤ remain c) ⊎ (k ≡ 0)
    → let x = c.begin +ℤ c.downloaded in
      (pos_part x + k + neg_part last ≤ pos_part last + neg_part x + 1) ⊎ (k ≡ 0)
remain_bound c last k e (inr z) = inr z
remain_bound c last k e (inl h) = inl (
    omega (
      arith,
      +ℤ_parts,
      -ℤ_parts,
      ap pos_part (remain_lem c last e),
      ap neg_part (remain_lem c last e),
    ))

-- What is written is what the connection no longer awaits.
awaits-advance :
    (p : ℤ) (c : Connection) (last : ℤ) (k : ℕ)
    → c.chunk.end ≡ some last
    → (pos k ≤ℤ remain c.chunk) ⊎ (k ≡ 0)
    → (if awaits p c.chunk then 1 else 0)
      ≡ (if awaits p (advance k c).chunk then 1 else 0)
        + write_at (c.chunk.begin +ℤ c.chunk.downloaded) k (λ q. 0) p
awaits-advance p c last k e h =
    let x = c.chunk.begin +ℤ c.chunk.downloaded in
    let y = c.chunk.begin +ℤ (c.chunk.downloaded +ℤ pos k) in
    let cut =
      cut_front p x last y (x +ℤ pos k) k (omega (arith, +ℤ_parts)) (omega (arith, +ℤ_parts))
        (remain_bound c.chunk last k e h) in
    rw e (omega (arith, cut))

-- the place where a split cuts
split-IsCut :
    (c : Chunk) (e : ℤ)
    → c.end ≡ some e
    → pos (512 * 1024) ≤ℤ remain c
    → let q = split_point e c in IsCut c e q (q +ℤ pos 1)
split-IsCut c e s r =
    let q = split_point e c in
    let (low, high) = half_beyond c e s r in
    record {
      ended = s;
      adjacent = omega (arith, +ℤ_parts q (pos 1));
      beyond = omega (arith, +ℤ_parts q (pos 1), low);
      inside = high;
    }

-- and the place where a steal does
steal-IsCut :
    (c : Chunk) (e : ℤ)
    → c.end ≡ some e
    → pos (512 * 1024) ≤ℤ remain c
    → let t = e -ℤ half (remain c) in IsCut c e (t -ℤ pos 1) t
steal-IsCut c e s r =
    let t = e -ℤ half (remain c) in
    let (low, high) = half_beyond c e s r in
    record {
      ended = s;
      adjacent = omega (arith, -ℤ_parts t (pos 1));
      beyond = low;
      inside = omega (arith, -ℤ_parts t (pos 1), high);
    }

module _ (first last : ℤ) where
  pub split_at-IsExact :
      (t : Transfer) (i : ℕ) (v : Connection) (e : ℤ)
      → get_elem? t.connections i ≡ some v
      → v.chunk.end ≡ some e
      → pos (512 * 1024) ≤ℤ remain v.chunk
      → IsExact first last t
      → IsExact first last (record t {
        connections = split_at t.connections i v.chunk e;
        phases = set_at (length t.connections) at_rest t.phases;
      })
  unfolding split_at
  split_at-IsExact t i v e g s r x =
      let q = split_point e v.chunk in
      let cut = split-IsCut v.chunk e s r in
      let shorten : Connection → Connection = λ c. record c { chunk = set_end c.chunk q } in
      let more = new_connection (length t.connections) worker (new_chunk (q +ℤ pos 1) e) in
      let kept = modify t.connections i shorten in
      let size : length t.connections ≡ length kept = sym (length-modify t.connections i shorten) in
      let f = AllFit-get t.phases t.connections i v g x.fit in
      record {
        each = λ p. omega (
          arith,
          x.each p,
          uncovered-append at_rest more p t.phases kept (length t.connections) size,
          uncovered-modify shorten v p t.phases t.connections i g,
          weight-cut p (t.phases i) v e q (q +ℤ pos 1) f cut,
        );
        fit = AllFit-append at_rest more t.phases kept (length t.connections) size tt (
            AllFit-modify shorten v t.phases t.connections i g
              (IsFit-cut (t.phases i) v e q (q +ℤ pos 1) f cut) x.fit);
      }

  pub steal_at-IsExact :
      (t : Transfer) (h : ℕ) (helper : Connection) (l : ℤ) (i : ℕ) (v : Connection) (e : ℤ)
      → get_elem? t.connections h ≡ some helper
      → t.phases h ≡ at_rest
      → helper.chunk.end ≡ some l
      → remain helper.chunk ≤ℤ pos 0
      → get_elem? t.connections i ≡ some v
      → v.chunk.end ≡ some e
      → pos (512 * 1024) ≤ℤ remain v.chunk
      → h ≢ i
      → IsExact first last t
      → IsExact first last (record t { connections = steal_at t.connections h i v.chunk e })
  unfolding steal_at
  steal_at-IsExact t h helper l i v e own rest ended finished g s r n x =
      let c = e -ℤ half (remain v.chunk) in
      let cut = steal-IsCut v.chunk e s r in
      let take : Connection → Connection = λ d. record d { chunk = stolen e v.chunk } in
      let shorten : Connection → Connection =
        λ d. record d { chunk = set_end d.chunk (c -ℤ pos 1) } in
      let helped = modify t.connections h take in
      let g' : get_elem? helped i ≡ some v = get_elem?-modify_ne t.connections h i take n ∙ g in
      let f = AllFit-get t.phases t.connections i v g x.fit in
      record {
        each = λ p. omega (
          arith,
          x.each p,
          uncovered-modify take helper p t.phases t.connections h own,
          uncovered-modify shorten v p t.phases helped i g',
          ap (λ y. weight p y helper) rest,
          ap (λ y. weight p y (take helper)) rest,
          ap {B = ℕ} (λ b. if b then 1 else 0) (awaits_finished p helper.chunk l ended finished),
          weight-cut p (t.phases i) v e (c -ℤ pos 1) c f cut,
        );
        fit =
            AllFit-modify shorten v t.phases helped i g'
              (IsFit-cut (t.phases i) v e (c -ℤ pos 1) c f cut)
              (AllFit-modify take helper t.phases t.connections h own
                (subst (λ y. IsFit y (take helper)) (sym rest) tt) x.fit);
      }

  pub choose_data-IsExact :
      (t : Transfer) (i : ℕ) (c : Connection) (e : ℤ) (n : ℕ)
      → get_elem? t.connections i ≡ some c
      → t.phases i ≡ at_rest
      → c.chunk.end ≡ some e
      → n ≤ buffer_size
      → IsExact first last t
      → IsExact first last (choose_data i c n t)
  unfolding choose_data
  choose_data-IsExact t i c e n g rest ended small x =
      let y = to_write (c.chunk.begin +ℤ c.chunk.downloaded) (writable n c.chunk) in
      if_cases (IsExact first last) (leb_ℤ (remain c.chunk) (pos 0)) t
        (record t { phases = set_at i y t.phases }) (λ _. x)
        (λ more. record {
          each = λ p. omega (
            arith,
            x.each p,
            uncovered-set_at y c p t.phases t.connections i g,
            ap (λ z. weight p z c) rest,
          );
          fit =
              AllFit-set_at y c t.phases t.connections i g
                (refl, writable-HasRoom n c.chunk e ended small more) x.fit;
        })

  pub write_data-IsExact :
      (t : Transfer) (i : ℕ) (c : Connection) (offset : ℤ) (k : ℕ)
      → get_elem? t.connections i ≡ some c
      → t.phases i ≡ to_write offset k
      → IsExact first last t
      → IsExact first last (write_data i offset k t)
  unfolding write_data
  write_data-IsExact t i c offset k g phase x =
      let f : IsFit (to_write offset k) c =
        subst (λ y. IsFit y c) phase (AllFit-get t.phases t.connections i c g x.fit) in
      record {
        each = λ p. omega (
          arith,
          x.each p,
          uncovered-set_at (to_count k) c p t.phases t.connections i g,
          ap (λ y. weight p y c) phase,
          awaits-advance p c f.1.last k f.1.ended (inl f.1.room),
          ap (λ o. write_at o k (λ q. 0) p) f.0,
        );
        fit = AllFit-set_at (to_count k) c t.phases t.connections i g f.1 x.fit;
      }

  pub count_data-IsExact :
      (t : Transfer) (i : ℕ) (c : Connection) (k : ℕ)
      → get_elem? t.connections i ≡ some c
      → t.phases i ≡ to_count k
      → IsExact first last t
      → IsExact first last (count_data i k t)
  unfolding count_data
  count_data-IsExact t i c k g phase x =
      let rested = set_at i at_rest t.phases in
      let a = AllFit-set_at at_rest c t.phases t.connections i g tt x.fit in
      let here_rest = set_at-same i at_rest t.phases in
      record {
        each = λ p. omega (
          arith,
          x.each p,
          uncovered-set_at at_rest c p t.phases t.connections i g,
          uncovered-modify (advance k) c p rested t.connections i g,
          ap (λ y. weight p y c) phase,
          ap (λ y. weight p y c) here_rest,
          ap (λ y. weight p y (advance k c)) here_rest,
        );
        fit =
            AllFit-modify (advance k) c rested t.connections i g
              (subst (λ y. IsFit y (advance k c)) (sym here_rest) tt) a;
      }
