-- ===== src/PieceMap.antt =====
-- pkg/base/piece_map.go: the completion state of ordered pieces as a bitset.
-- A method on a non-nil `*PieceMap` takes the record and returns the new one; the slice `data`
-- is the list of its bytes. `ErrPieceIndexOutOfRange` and the other errors are `none`. The
-- arguments that Go takes as `int` may be negative; the stored counts never are.
pub mod Bitset
pub mod Shift
pub mod Invariant
pub mod Laws
pub mod Removal
pub mod Restore
mod Tests
use pony_downloader.Common.{
  ℕ, zero, suc, ◌+◌, ◌-◌, ◌/◌, ◌%◌, ℤ, pos, negsuc, Bool, true, false, not, List, [], ◌∷◌, ◌++◌,
  Option, none, some, ltb, ◌==◌, if◌then◌else◌, length, get_or, set, take, replicate,
}
use pony_downloader.Common.Bits.{test_bit, set_bit, clear_bit, keep_low}

abbrev pub pieces_per_byte : ℕ
pieces_per_byte = 8

pub record PieceMap : Type 0 where
  pub piece_count : ℕ
  pub piece_size : ℤ
  pub completed_pieces : ℕ
  pub bytes : List ℕ

abbrev pub packed_piece_byte_count : ℕ → ℕ
packed_piece_byte_count n = (n + pieces_per_byte - 1) / pieces_per_byte

-- `piecePosition` splits an index into the byte and the bit (the exponent of the mask).
abbrev pub piece_position : ℕ → ℕ × ℕ
piece_position i = (i / pieces_per_byte, i % pieces_per_byte)

-- A read of the packed bytes. No read past the end is made on a well-formed map.
pub completed_bit : List ℕ → ℕ → Bool
completed_bit d i = let (byte_index, bit) = piece_position i in test_bit (get_or d byte_index 0) bit

pub write_bit : List ℕ → ℕ → Bool → List ℕ
write_bit d i completed =
    let (byte_index, bit) = piece_position i in
    let old = get_or d byte_index 0 in
    set d byte_index (if completed then set_bit old bit else clear_bit old bit)

abbrev pub completed_at : PieceMap → ℕ → Bool
completed_at m i = completed_bit m.bytes i

abbrev pub set_completed : PieceMap → ℕ → Bool → PieceMap
set_completed m i completed = record m { bytes = write_bit m.bytes i completed }

-- `clearUnusedBits` on the packed bytes of n pieces
pub clear_unused_bits : ℕ → List ℕ → List ℕ
clear_unused_bits n d =
    if n == 0
    then d
    else if n % pieces_per_byte == 0
    then d
    else set d (length d - 1) (keep_low (get_or d (length d - 1) 0) (n % pieces_per_byte))

abbrev pub valid_index : PieceMap → ℤ → Bool
valid_index m (pos i) = ltb i m.piece_count
valid_index m (negsuc i) = false

-- The index of a call that `valid_index` has admitted.
abbrev pub to_index : ℤ → ℕ
to_index (pos i) = i
to_index (negsuc i) = 0

new_count : ℤ → ℕ
new_count (pos n) = n
new_count (negsuc n) = 0

-- `NewPieceMap`
unfoldable pub new_piece_map : ℤ → ℤ → PieceMap
unfolding new_count
new_piece_map count size = record {
  piece_count = new_count count;
  piece_size = size;
  completed_pieces = 0;
  bytes = replicate (packed_piece_byte_count (new_count count)) 0;
}

-- `bits.OnesCount8`
abbrev count_bits : ℕ → ℕ → ℕ
count_bits zero b = 0
count_bits (suc k) b = count_bits k b + (if test_bit b k then 1 else 0)

pub ones_count8 : ℕ → ℕ
ones_count8 b = count_bits 8 b

-- the loop that adds up the ones of all bytes
pub count_ones : ℕ → List ℕ → ℕ
count_ones acc [] = acc
count_ones acc (b ∷ d) = count_ones (acc + ones_count8 b) d

restore : ℕ → ℤ → List ℕ → PieceMap
restore n size d =
    let cleared = clear_unused_bits n d in
    record {
      piece_count = n;
      piece_size = size;
      completed_pieces = count_ones 0 cleared;
      bytes = cleared;
    }

-- `NewPieceMapFromBytes`
unfoldable pub new_piece_map_from_bytes : ℤ → ℤ → List ℕ → Option PieceMap
unfolding restore
new_piece_map_from_bytes (negsuc n) size d = none
new_piece_map_from_bytes (pos n) size d =
    if length d == packed_piece_byte_count n then some (restore n size d) else none

-- `Add`
unfoldable pub add : PieceMap → Bool → PieceMap
add m completed =
    let grown = if m.piece_count % pieces_per_byte == 0 then m.bytes ++ 0 ∷ [] else m.bytes in
    let m' = record m { piece_count = m.piece_count + 1; bytes = grown } in
    if completed
    then record (set_completed m' (m'.piece_count - 1) true) {
      completed_pieces = m.completed_pieces + 1;
    }
    else m'

-- the loop of `Delete`, with the number of rounds left
pub shift_left : ℕ → ℕ → List ℕ → List ℕ
shift_left zero current d = d
shift_left (suc n) current d =
    shift_left n (current + 1) (write_bit d current (completed_bit d (current + 1)))

delete_at : PieceMap → ℕ → PieceMap
delete_at m i =
    let completed = if completed_at m i then m.completed_pieces - 1 else m.completed_pieces in
    let shifted = shift_left (m.piece_count - 1 - i) i m.bytes in
    let count = m.piece_count - 1 in
    record m {
      piece_count = count;
      completed_pieces = completed;
      bytes = clear_unused_bits count (take (packed_piece_byte_count count) shifted);
    }

-- `Delete`
unfoldable pub delete : PieceMap → ℤ → Option PieceMap
unfolding delete_at
delete m i = if valid_index m i then some (delete_at m (to_index i)) else none

beq : Bool → Bool → Bool
beq true b = b
beq false b = not b

update_at : PieceMap → ℕ → Bool → PieceMap
unfolding beq
update_at m i completed =
    if beq (completed_at m i) completed
    then m
    else set_completed
        (record m {
          completed_pieces = if completed then m.completed_pieces + 1 else m.completed_pieces - 1;
        })
        i completed

-- `Update`
unfoldable pub update : PieceMap → ℤ → Bool → Option PieceMap
unfolding update_at
update m i completed = if valid_index m i then some (update_at m (to_index i) completed) else none

-- `Get`
unfoldable pub get : PieceMap → ℤ → Option Bool
get m i = if valid_index m i then some (completed_at m (to_index i)) else none

-- `Bytes`
abbrev pub to_bytes : PieceMap → List ℕ
to_bytes m = m.bytes
