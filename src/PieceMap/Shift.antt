-- ===== src/PieceMap/Shift.antt =====
-- The loop of `Delete`: every later bit moves one place down.
use pony_downloader.Common.{
  ℕ, zero, suc, ◌+◌, ◌/◌, ◌<◌, ◌≡◌, refl, ◌&&◌, List, arith, ltb, leb, if◌then◌else◌, length, ◌∙◌,
}
use pony_downloader.PieceMap.{completed_bit, write_bit, shift_left}
use pony_downloader.PieceMap.Bitset.{
  IsBytes, length-write_bit, write_bit-IsBytes, completed_bit-write_bit,
}

pub length-shift_left : (n i : ℕ) (d : List ℕ) → length (shift_left n i d) ≡ length d
unfolding shift_left
length-shift_left zero i d = refl
length-shift_left (suc n) i d =
    length-shift_left n (i + 1) (write_bit d i (completed_bit d (i + 1)))
    ∙ length-write_bit d i (completed_bit d (i + 1))

pub shift_left-IsBytes : (n i : ℕ) (d : List ℕ) → IsBytes d → IsBytes (shift_left n i d)
unfolding shift_left
shift_left-IsBytes zero i d h = h
shift_left-IsBytes (suc n) i d h =
    shift_left-IsBytes n (i + 1) _ (write_bit-IsBytes d i (completed_bit d (i + 1)) h)

pub completed_bit-shift_left :
    (n i : ℕ) (d : List ℕ) (j : ℕ)
    → IsBytes d
    → (i + n) / 8 < length d
    → completed_bit (shift_left n i d) j
      ≡ (if leb i j && ltb j (i + n) then completed_bit d (j + 1) else completed_bit d j)
unfolding shift_left
completed_bit-shift_left zero i d j h l = ground arith
completed_bit-shift_left (suc n) i d j h l =
    let d' = write_bit d i (completed_bit d (i + 1)) in
    let ih =
      completed_bit-shift_left n (i + 1) d' j (write_bit-IsBytes d i (completed_bit d (i + 1)) h)
        (omega (arith, length-write_bit d i (completed_bit d (i + 1)))) in
    ground (
      arith,
      ih,
      completed_bit-write_bit d i j (completed_bit d (i + 1)) h (omega arith),
      completed_bit-write_bit d i (j + 1) (completed_bit d (i + 1)) h (omega arith),
    )
