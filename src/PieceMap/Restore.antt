-- ===== src/PieceMap/Restore.antt =====
-- `NewPieceMapFromBytes`: what it restores from any bytes, and from those of a well-formed map.
use pony_downloader.Common.{
  ℕ, suc, ◌+◌, ◌-◌, ◌*◌, ◌/◌, ◌%◌, ◌<◌, ◌≤◌, ◌≡◌, refl, sym, ap, ◌∙◌, ℤ, pos, false, List, [], ◌∷◌,
  some, arith, ltb, ◌==◌, if◌then◌else◌, if_cases, length, get_or, tabulate, set-get_or_same,
}
use pony_downloader.Common.Bits.{test_bit, keep_low-eq}
use pony_downloader.Common.Counting.{
  count_true, count_below, count_true-tabulate, count_below_ext, count_below-add, count_below_clear,
}
use pony_downloader.PieceMap.{
  PieceMap, completed_bit, packed_piece_byte_count, clear_unused_bits, count_ones, ones_count8,
  restore, new_piece_map_from_bytes, to_bytes,
}
use pony_downloader.PieceMap.Bitset.{
  IsBytes, clear_unused_bits-IsBytes, length-clear_unused_bits, completed_bit-clear_unused_bits,
}
use pony_downloader.PieceMap.Invariant.{pieces, IsWellFormed, tabulate_ext}

ones_count8-count_below : (b : ℕ) → ones_count8 b ≡ count_below 8 (test_bit b)
unfolding ones_count8
ones_count8-count_below b = refl

completed_bit-head : (b : ℕ) (d : List ℕ) (i : ℕ) → i < 8 → completed_bit (b ∷ d) i ≡ test_bit b i
unfolding completed_bit
completed_bit-head b d i h =
    let q : i / 8 ≡ 0 = omega arith in let r : i % 8 ≡ i = omega arith in rw (q, r)

completed_bit-tail :
    (b : ℕ) (d : List ℕ) (i : ℕ) → completed_bit (b ∷ d) (8 + i) ≡ completed_bit d i
unfolding completed_bit
completed_bit-tail b d i =
    let q : (8 + i) / 8 ≡ suc (i / 8) = omega arith in
    let r : (8 + i) % 8 ≡ i % 8 = omega arith in rw (q, r)

-- The ones of all bytes are the set bits of all indices.
count_ones-count_below :
    (acc : ℕ) (d : List ℕ) → count_ones acc d ≡ acc + count_below (8 * length d) (completed_bit d)
unfolding count_ones
count_ones-count_below acc [] = omega arith
count_ones-count_below acc (b ∷ d) =
    let split : 8 * suc (length d) ≡ 8 + 8 * length d = omega arith in
    rw split (
      omega (
        arith,
        count_ones-count_below (acc + ones_count8 b) d,
        ones_count8-count_below b,
        count_below-add 8 (8 * length d) (completed_bit (b ∷ d)),
        count_below_ext 8 _ _ (completed_bit-head b d),
        count_below_ext (8 * length d) _ _ (λ i _. completed_bit-tail b d i),
      ))

-- Where no bit is set from n on, they are those of the first n pieces.
count_ones-count_true :
    (n : ℕ) (d : List ℕ)
    → length d ≡ packed_piece_byte_count n
    → ((i : ℕ) → n ≤ i → completed_bit d i ≡ false)
    → count_ones 0 d ≡ count_true (tabulate n (completed_bit d))
count_ones-count_true n d l h =
    let e : 8 * length d ≡ n + (8 * length d - n) = omega arith in
    omega (
      arith,
      count_ones-count_below 0 d,
      ap (λ k. count_below k (completed_bit d)) e,
      count_below_clear (8 * length d - n) n (completed_bit d) h,
      count_true-tabulate n (completed_bit d),
    )

module _ (n : ℕ) (size : ℤ) (d : List ℕ) (l : length d ≡ packed_piece_byte_count n)
    (v : IsBytes d) where
  cleared_bit :
      (i : ℕ)
      → completed_bit (clear_unused_bits n d) i ≡ (if ltb i n then completed_bit d i else false)
  cleared_bit i = completed_bit-clear_unused_bits n d i v l

  restore-IsWellFormed : IsWellFormed (restore n size d)
  unfolding restore
  restore-IsWellFormed = record {
    sized = length-clear_unused_bits n d ∙ l;
    in_bytes = clear_unused_bits-IsBytes n d v;
    clear = λ i h. ground (arith, cleared_bit i);
    counted =
        count_ones-count_true n (clear_unused_bits n d) (length-clear_unused_bits n d ∙ l)
          (λ i h. ground (arith, cleared_bit i));
  }

  -- Bytes of the right number restore the pieces that they spell, and nothing beyond them, into a
  -- well-formed map.
  pub new_piece_map_from_bytes_lem :
      (m : PieceMap) × (new_piece_map_from_bytes (pos n) size d ≡ some m)
      × IsWellFormed m
      × (pieces m ≡ tabulate n (completed_bit d))
  unfolding new_piece_map_from_bytes
  new_piece_map_from_bytes_lem = (
    restore n size d,
    ground (arith, l),
    restore-IsWellFormed,
    tabulate_ext n _ _ (λ i h. ground (arith, cleared_bit i)),
  )

completed_bit-at :
    (d : List ℕ) (k j : ℕ) → j < 8 → completed_bit d (8 * k + j) ≡ test_bit (get_or d k 0) j
unfolding completed_bit
completed_bit-at d k j h =
    let q : (8 * k + j) / 8 ≡ k = omega arith in
    let r : (8 * k + j) % 8 ≡ j = omega arith in rw (q, r)

-- The last byte of a well-formed map has no unused bit to clear.
clear_unused_bits-eq :
    (m : PieceMap) → IsWellFormed m → clear_unused_bits m.piece_count m.bytes ≡ m.bytes
unfolding clear_unused_bits
clear_unused_bits-eq m w =
    if_cases (λ d. d ≡ m.bytes) (m.piece_count == 0) _ _ (λ _. refl)
      λ p.
        if_cases (λ d. d ≡ m.bytes) (m.piece_count % 8 == 0) _ _ (λ _. refl)
          λ q.
            let last = length m.bytes - 1 in
            rw
              (keep_low-eq (get_or m.bytes last 0) (m.piece_count % 8) (w.in_bytes last)
                (omega arith)
                (λ j h k.
                  sym (completed_bit-at m.bytes last j k)
                  ∙ w.clear (8 * last + j) (ground (arith, w.sized))))
              (set-get_or_same m.bytes last 0)

-- The bytes of a well-formed map restore it, its counter included.
pub new_piece_map_from_bytes-to_bytes :
    (m : PieceMap)
    → IsWellFormed m
    → new_piece_map_from_bytes (pos m.piece_count) m.piece_size (to_bytes m) ≡ some m
unfolding new_piece_map_from_bytes
new_piece_map_from_bytes-to_bytes m w = ground (
  arith,
  w.sized,
  w.counted,
  clear_unused_bits-eq m w,
  count_ones-count_true m.piece_count m.bytes w.sized w.clear,
)
