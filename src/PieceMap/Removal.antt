-- ===== src/PieceMap/Removal.antt =====
-- `Delete` against the list of completion states.
use native.Mathlib.Numerals.{add-one}
use pony_downloader.Common.{
  ℕ, zero, suc, ◌-◌, ◌/◌, ◌<◌, ◌≡◌, refl, ap, ◌∙◌, pos, false, List, [], ◌∷◌, some, arith, ltb,
  if◌then◌else◌, length, get_or, take, remove_at, length-remove_at, list_ext, length-take,
  get_or-take, get_or-remove_at,
}
use pony_downloader.Common.Counting.{count_true, count_true-remove_at}
use pony_downloader.PieceMap.{
  PieceMap, completed_bit, completed_at, packed_piece_byte_count, shift_left, delete_at, delete,
}
use pony_downloader.PieceMap.Bitset.{
  IsBytes, clear_unused_bits-IsBytes, length-clear_unused_bits, completed_bit-clear_unused_bits,
}
use pony_downloader.PieceMap.Shift.{length-shift_left, shift_left-IsBytes, completed_bit-shift_left}
use pony_downloader.PieceMap.Invariant.{pieces, IsWellFormed, length-pieces, get_or-pieces}

take-IsBytes : (n : ℕ) (d : List ℕ) → IsBytes d → IsBytes (take n d)
take-IsBytes zero d h = λ j. omega arith
take-IsBytes (suc n) [] h = h
take-IsBytes (suc n) (x ∷ d) h = λ j. elim j as (λ j. get_or (x ∷ take n d) j 0 < 256) [
  | zero ↦ h 0
  | suc j ↦ take-IsBytes n d (λ k. h (suc k)) j
]

completed_bit-take :
    (n : ℕ) (d : List ℕ) (i : ℕ) → i / 8 < n → completed_bit (take n d) i ≡ completed_bit d i
unfolding completed_bit
completed_bit-take n d i h = rw (get_or-take n d (i / 8) 0 h)

module _ (m : PieceMap) (w : IsWellFormed m) (i : ℕ) (l : i < m.piece_count) where
  abbrev rest : ℕ
  rest = m.piece_count - 1

  abbrev shifted : List ℕ
  shifted = shift_left (rest - i) i m.bytes

  abbrev cut : List ℕ
  cut = take (packed_piece_byte_count rest) shifted

  shifted-IsBytes : IsBytes shifted
  shifted-IsBytes = shift_left-IsBytes (rest - i) i m.bytes w.in_bytes

  length-cut : length cut ≡ packed_piece_byte_count rest
  length-cut = omega (
    arith,
    length-take (packed_piece_byte_count rest) shifted,
    length-shift_left (rest - i) i m.bytes,
    w.sized,
  )

  cut-IsBytes : IsBytes cut
  cut-IsBytes = take-IsBytes (packed_piece_byte_count rest) shifted shifted-IsBytes

  piece_count-delete_at : (delete_at m i).piece_count ≡ rest
  unfolding delete_at
  piece_count-delete_at = refl

  completed_pieces-delete_at :
      (delete_at m i).completed_pieces
      ≡ (if completed_at m i then m.completed_pieces - 1 else m.completed_pieces)
  unfolding delete_at
  completed_pieces-delete_at = refl

  completed_at-delete_at :
      (j : ℕ)
      → completed_at (delete_at m i) j ≡ (
          if ltb j rest
          then (if ltb j i then completed_at m j else completed_at m (suc j))
          else false)
  unfolding delete_at
  completed_at-delete_at j =
      completed_bit-clear_unused_bits rest cut j cut-IsBytes length-cut
      ∙ ground (
        arith,
        completed_bit-take (packed_piece_byte_count rest) shifted j,
        completed_bit-shift_left (rest - i) i m.bytes j w.in_bytes (omega (arith, w.sized)),
        add-one j,
      )

  pieces-delete_at : pieces (delete_at m i) ≡ remove_at (pieces m) i
  pieces-delete_at =
      let m' = delete_at m i in
      list_ext (pieces m') (remove_at (pieces m) i) false
        (unfold delete_at in
          omega (
            arith,
            length-pieces m',
            length-remove_at (pieces m) i (omega (arith, length-pieces m)),
            length-pieces m,
          ))
        λ j k. ground (
          arith,
          get_or-pieces m' j (omega (arith, length-pieces m')),
          completed_at-delete_at j,
          get_or-remove_at (pieces m) i j false,
          get_or-pieces m j,
          get_or-pieces m (suc j),
          piece_count-delete_at,
          length-pieces m',
        )

  delete_at-IsWellFormed : IsWellFormed (delete_at m i)
  delete_at-IsWellFormed = record {
    sized = unfold delete_at in (length-clear_unused_bits rest cut ∙ length-cut);
    in_bytes = unfold delete_at in clear_unused_bits-IsBytes rest cut cut-IsBytes;
    clear = λ j h. ground (arith, completed_at-delete_at j, piece_count-delete_at);
    counted = ground (
      arith,
      completed_pieces-delete_at,
      ap count_true pieces-delete_at,
      count_true-remove_at (pieces m) i (omega (arith, length-pieces m)),
      get_or-pieces m i l,
      w.counted,
    );
  }

  -- `Delete` takes one piece out of the list, moves the later ones down by one and keeps the
  -- invariant.
  pub delete_lem :
      (m' : PieceMap) × (delete m (pos i) ≡ some m')
      × (pieces m' ≡ remove_at (pieces m) i)
      × IsWellFormed m'
  unfolding delete
  delete_lem = (delete_at m i, ground arith, pieces-delete_at, delete_at-IsWellFormed)
