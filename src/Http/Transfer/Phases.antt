-- ===== src/Http/Transfer/Phases.antt =====
-- The bytes that the connections have still to write, while some of them are between two critical
-- sections: what is in the file and not yet counted is not among them.
use pony_downloader.Common.{
  subst, sym, ℕ, zero, suc, ◌+◌, ◌*◌, ◌≤◌, ◌≡◌, refl, ap, ℤ, pos, pos_part, neg_part, ◌+ℤ◌, ◌-ℤ◌,
  ◌≤ℤ◌, half, half_parts, +ℤ_parts, -ℤ_parts, List, [], ◌∷◌, ◌++◌, some, arith, if◌then◌else◌,
  get_elem?, modify, length,
}
use pony_downloader.Http.Connection.{Chunk, Connection, remain, set_end, new_chunk}
use pony_downloader.Http.Split.Coverage.{awaits, awaits-cut, remain_lem}
use pony_downloader.Http.Transfer.{Phase, at_rest, to_write, to_count, set_at, advance, buffer_size}

-- the chunk without what is in the file
abbrev pub settled : Phase → Connection → Chunk
settled at_rest c = c.chunk
settled (to_write offset k) c = c.chunk
settled (to_count k) c = (advance k c).chunk

abbrev pub weight : ℤ → Phase → Connection → ℕ
weight p x c = if awaits p (settled x c) then 1 else 0

-- How many connections have byte p to write.
abbrev pub uncovered : ℤ → (ℕ → Phase) → List Connection → ℕ
uncovered p phases [] = 0
uncovered p phases (c ∷ cs) = weight p (phases 0) c + uncovered p (λ i. phases (suc i)) cs

-- The chunk has an end and k bytes at least that are not counted, and k fits in a buffer.
pub record HasRoom (k : ℕ) (c : Chunk) : Type 0 where
  pub small : k ≤ buffer_size
  pub last : ℤ
  pub ended : c.end ≡ some last
  pub room : pos k ≤ℤ remain c

-- What a phase says of the chunk of its connection.
abbrev pub IsFit : Phase → Connection → Type 0
IsFit at_rest c = Unit
IsFit (to_write offset k) c = (offset ≡ c.chunk.begin +ℤ c.chunk.downloaded) × HasRoom k c.chunk
IsFit (to_count k) c = HasRoom k c.chunk

abbrev pub AllFit : (ℕ → Phase) → List Connection → Type 0
AllFit phases [] = Unit
AllFit phases (c ∷ cs) = IsFit (phases 0) c × AllFit (λ i. phases (suc i)) cs

some_inj : {c d : Connection} → some d ≡ some c → d ≡ c
some_inj h = cc

pub AllFit-get :
    (phases : ℕ → Phase) (cs : List Connection) (i : ℕ) (c : Connection)
    → get_elem? cs i ≡ some c
    → AllFit phases cs
    → IsFit (phases i) c
AllFit-get phases [] i c g a = absurd (cc)
AllFit-get phases (d ∷ cs) zero c g a = subst (IsFit (phases 0)) (some_inj g) a.0
AllFit-get phases (d ∷ cs) (suc i) c g a = AllFit-get (λ k. phases (suc k)) cs i c g a.1

-- A change of one connection.
module _ (f : Connection → Connection) (c : Connection) where
  pub uncovered-modify :
      (p : ℤ) (phases : ℕ → Phase) (cs : List Connection) (i : ℕ)
      → get_elem? cs i ≡ some c
      → uncovered p phases (modify cs i f) + weight p (phases i) c
        ≡ uncovered p phases cs + weight p (phases i) (f c)
  uncovered-modify p phases [] i g = absurd (cc)
  uncovered-modify p phases (d ∷ cs) zero g = omega (
    arith,
    ap (weight p (phases 0)) (some_inj g),
    ap (λ x. weight p (phases 0) (f x)) (some_inj g),
  )
  uncovered-modify p phases (d ∷ cs) (suc i) g =
      omega (arith, uncovered-modify p (λ k. phases (suc k)) cs i g)

  pub AllFit-modify :
      (phases : ℕ → Phase) (cs : List Connection) (i : ℕ)
      → get_elem? cs i ≡ some c
      → IsFit (phases i) (f c)
      → AllFit phases cs
      → AllFit phases (modify cs i f)
  AllFit-modify phases [] i g h a = tt
  AllFit-modify phases (d ∷ cs) zero g h a =
      (subst (λ x. IsFit (phases 0) (f x)) (sym (some_inj g)) h, a.1)
  AllFit-modify phases (d ∷ cs) (suc i) g h a =
      (a.0, AllFit-modify (λ k. phases (suc k)) cs i g h a.1)

-- A change of one phase.
module _ (x : Phase) (c : Connection) where
  pub uncovered-set_at :
      (p : ℤ) (phases : ℕ → Phase) (cs : List Connection) (i : ℕ)
      → get_elem? cs i ≡ some c
      → uncovered p (set_at i x phases) cs + weight p (phases i) c
        ≡ uncovered p phases cs + weight p x c
  uncovered-set_at p phases [] i g = absurd (cc)
  uncovered-set_at p phases (d ∷ cs) zero g =
      omega (arith, ap (weight p (phases 0)) (some_inj g), ap (weight p x) (some_inj g))
  uncovered-set_at p phases (d ∷ cs) (suc i) g =
      omega (arith, uncovered-set_at p (λ k. phases (suc k)) cs i g)

  pub AllFit-set_at :
      (phases : ℕ → Phase) (cs : List Connection) (i : ℕ)
      → get_elem? cs i ≡ some c
      → IsFit x c
      → AllFit phases cs
      → AllFit (set_at i x phases) cs
  AllFit-set_at phases [] i g h a = tt
  AllFit-set_at phases (d ∷ cs) zero g h a = (subst (IsFit x) (sym (some_inj g)) h, a.1)
  AllFit-set_at phases (d ∷ cs) (suc i) g h a =
      (a.0, AllFit-set_at (λ k. phases (suc k)) cs i g h a.1)

  -- a new connection behind the others
  pub uncovered-append :
      (p : ℤ) (phases : ℕ → Phase) (cs : List Connection) (n : ℕ)
      → n ≡ length cs
      → uncovered p (set_at n x phases) (cs ++ c ∷ []) ≡ uncovered p phases cs + weight p x c
  uncovered-append p phases [] zero e = omega arith
  uncovered-append p phases [] (suc n) e = absurd (omega (arith, e))
  uncovered-append p phases (d ∷ cs) zero e = absurd (omega (arith, e))
  uncovered-append p phases (d ∷ cs) (suc n) e =
      omega (arith, uncovered-append p (λ k. phases (suc k)) cs n (omega (arith, e)))

  pub AllFit-append :
      (phases : ℕ → Phase) (cs : List Connection) (n : ℕ)
      → n ≡ length cs
      → IsFit x c
      → AllFit phases cs
      → AllFit (set_at n x phases) (cs ++ c ∷ [])
  AllFit-append phases [] zero e h a = (h, tt)
  AllFit-append phases [] (suc n) e h a = absurd (omega (arith, e))
  AllFit-append phases (d ∷ cs) zero e h a = absurd (omega (arith, e))
  AllFit-append phases (d ∷ cs) (suc n) e h a =
      (a.0, AllFit-append (λ k. phases (suc k)) cs n (omega (arith, e)) h a.1)

-- A chunk is cut where it leaves a buffer to its connection: t starts the second part, q ends the first.
pub record IsCut (c : Chunk) (last q t : ℤ) : Type 0 where
  pub ended : c.end ≡ some last
  pub adjacent : pos_part t + neg_part q ≡ pos_part q + neg_part t + 1
  pub beyond : c.begin +ℤ c.downloaded +ℤ pos buffer_size ≤ℤ t
  pub inside : q ≤ℤ last

-- Half of a chunk that is split is more than a buffer.
pub half_beyond :
    (c : Chunk) (e : ℤ)
    → c.end ≡ some e
    → pos (512 * 1024) ≤ℤ remain c
    → (c.begin +ℤ c.downloaded +ℤ pos buffer_size ≤ℤ e -ℤ half (remain c))
      × (e -ℤ half (remain c) ≤ℤ e)
half_beyond c e h k = omega (
  arith,
  +ℤ_parts,
  -ℤ_parts,
  half_parts (remain c) (omega arith),
  ap pos_part (remain_lem c e h),
  ap neg_part (remain_lem c e h),
)

-- A byte of a chunk that is cut has its place in one of the parts, whatever is not yet counted.
pub weight-cut :
    (p : ℤ) (x : Phase) (c : Connection) (last q t : ℤ)
    → IsFit x c
    → IsCut c.chunk last q t
    → weight p x c
      ≡ weight p x (record c { chunk = set_end c.chunk q })
        + (if awaits p (new_chunk t last) then 1 else 0)
weight-cut p at_rest c last q t f k =
    awaits-cut p c.chunk last q t k.ended k.adjacent (omega (arith, +ℤ_parts, k.beyond)) k.inside
weight-cut p (to_write offset n) c last q t f k =
    awaits-cut p c.chunk last q t k.ended k.adjacent (omega (arith, +ℤ_parts, k.beyond)) k.inside
weight-cut p (to_count n) c last q t f k =
    awaits-cut p (advance n c).chunk last q t k.ended k.adjacent
      (omega (arith, +ℤ_parts, k.beyond, f.small)) k.inside

HasRoom-cut :
    (n : ℕ) (c : Chunk) (last q t : ℤ) → HasRoom n c → IsCut c last q t → HasRoom n (set_end c q)
HasRoom-cut n c last q t h k = record {
  small = h.small;
  last = q;
  ended = refl;
  room = omega (
    arith,
    +ℤ_parts,
    -ℤ_parts,
    h.small,
    k.adjacent,
    k.beyond,
    ap pos_part (remain_lem (set_end c q) q refl),
    ap neg_part (remain_lem (set_end c q) q refl),
  );
}

pub IsFit-cut :
    (x : Phase) (c : Connection) (last q t : ℤ)
    → IsFit x c
    → IsCut c.chunk last q t
    → IsFit x (record c { chunk = set_end c.chunk q })
IsFit-cut at_rest c last q t f k = tt
IsFit-cut (to_write offset n) c last q t f k = (f.0, HasRoom-cut n c.chunk last q t f.1 k)
IsFit-cut (to_count n) c last q t f k = HasRoom-cut n c.chunk last q t f k
