-- ===== src/PieceMap/Invariant.antt =====
-- The abstract view of a piece map, a list of Booleans, and the invariant that ties the packed
-- bytes and the counter to it.
use pony_downloader.Common.{
  ℕ, zero, suc, ◌+◌, ◌-◌, ◌/◌, ◌%◌, ◌<◌, ◌≤◌, ◌≡◌, refl, ap, ap₂, ◌∙◌, Bool, true, false, List, [],
  ◌∷◌, ◌++◌, arith, ◌==◌, if◌then◌else◌, length, get_or, tabulate, length-tabulate, get_or-tabulate,
  get_or-replicate, length-append, replicate,
}
use pony_downloader.Common.Counting.{count_true, count_true-append}
use pony_downloader.Common.Bits.{test_bit-zero}
use pony_downloader.PieceMap.{PieceMap, completed_bit, completed_at, packed_piece_byte_count, add}
use pony_downloader.PieceMap.Bitset.{
  IsBytes, length-write_bit, write_bit-IsBytes, completed_bit-write_bit, get_or-grown,
}

-- What a client sees: the completion state of piece 0, piece 1, and so on.
abbrev pub pieces : PieceMap → List Bool
pieces m = tabulate m.piece_count (completed_at m)

pub record IsWellFormed (m : PieceMap) : Type 0 where
  pub sized : length m.bytes ≡ packed_piece_byte_count m.piece_count
  pub in_bytes : IsBytes m.bytes
  pub clear : (i : ℕ) → m.piece_count ≤ i → completed_at m i ≡ false
  pub counted : m.completed_pieces ≡ count_true (pieces m)

pub tabulate_ext :
    (n : ℕ) (f g : ℕ → Bool) → ((i : ℕ) → i < n → f i ≡ g i) → tabulate n f ≡ tabulate n g
tabulate_ext zero f g h = refl
tabulate_ext (suc n) f g h =
    ap₂ (λ xs x. xs ++ x ∷ []) (tabulate_ext n f g (λ i l. h i (omega arith))) (h n (omega arith))

pub length-pieces : (m : PieceMap) → length (pieces m) ≡ m.piece_count
length-pieces m = length-tabulate m.piece_count (completed_at m)

pub get_or-pieces :
    (m : PieceMap) (i : ℕ) → i < m.piece_count → get_or (pieces m) i false ≡ completed_at m i
get_or-pieces m i h = get_or-tabulate m.piece_count (completed_at m) i false h

pub completed_bit-replicate : (n i : ℕ) → completed_bit (replicate n 0) i ≡ false
unfolding completed_bit
completed_bit-replicate n i =
    rw (get_or-replicate {A = ℕ} n (i / 8) 0) (test_bit-zero (i % 8) (omega arith))

pub completed_bit-grown : (d : List ℕ) (i : ℕ) → completed_bit (d ++ 0 ∷ []) i ≡ completed_bit d i
unfolding completed_bit
completed_bit-grown d i = rw (get_or-grown d (i / 8))

-- The bytes to which `Add` writes.
abbrev pub grown : PieceMap → List ℕ
grown m = if m.piece_count % 8 == 0 then m.bytes ++ 0 ∷ [] else m.bytes

module _ (m : PieceMap) (w : IsWellFormed m) where
  pub length-grown : length (grown m) ≡ packed_piece_byte_count (m.piece_count + 1)
  length-grown = ground (arith, w.sized, length-append m.bytes (0 ∷ []))

  pub grown-IsBytes : IsBytes (grown m)
  grown-IsBytes i = ground (arith, get_or-grown m.bytes i, w.in_bytes i)

  pub completed_bit-grown_if : (i : ℕ) → completed_bit (grown m) i ≡ completed_at m i
  completed_bit-grown_if i = ground (arith, completed_bit-grown m.bytes i)

  -- `Add` changes the bit of the new piece alone.
  pub completed_at-add :
      (b : Bool) (i : ℕ)
      → completed_at (add m b) i ≡ (if m.piece_count == i then b else completed_at m i)
  unfolding add
  completed_at-add true i =
      let e : m.piece_count + 1 - 1 ≡ m.piece_count = omega arith in
      rw
        (
          e,
          completed_bit-write_bit (grown m) m.piece_count i true grown-IsBytes
              (omega (arith, length-grown)),
        )
        (rw (completed_bit-grown_if i))
  completed_at-add false i = ground (arith, completed_bit-grown_if i, w.clear i)

  piece_count-add : (b : Bool) → (add m b).piece_count ≡ suc m.piece_count
  unfolding add
  piece_count-add b = ground arith

  pieces-add : (b : Bool) → pieces (add m b) ≡ pieces m ++ b ∷ []
  pieces-add b =
      ap (λ k. tabulate k (completed_at (add m b))) (piece_count-add b)
      ∙ ap₂ (λ xs x. xs ++ x ∷ [])
          (tabulate_ext m.piece_count _ _ (λ i l. ground (arith, completed_at-add b i)))
          (ground (arith, completed_at-add b m.piece_count))

  add-IsBytes : (b : Bool) → IsBytes (add m b).bytes
  unfolding add
  add-IsBytes true = write_bit-IsBytes (grown m) (m.piece_count + 1 - 1) true grown-IsBytes
  add-IsBytes false = grown-IsBytes

  add-IsWellFormed : (b : Bool) → IsWellFormed (add m b)
  add-IsWellFormed b = record {
    sized =
        unfold add in ground (arith, length-grown, length-write_bit (grown m) m.piece_count true);
    in_bytes = add-IsBytes b;
    clear = λ i h. ground (arith, piece_count-add b, completed_at-add b i, w.clear i);
    counted =
        unfold add in
        ground (arith, pieces-add b, count_true-append (pieces m) (b ∷ []), w.counted);
  }

  -- `Add` puts one piece at the end of the list and keeps the invariant.
  pub add_lem : (b : Bool) → (pieces (add m b) ≡ pieces m ++ b ∷ []) × IsWellFormed (add m b)
  add_lem b = (pieces-add b, add-IsWellFormed b)
