-- ===== src/PieceMap/Tests.antt =====
-- Piece maps at concrete inputs, and the theorems about them there.
use pony_downloader.Common.{
  ℕ, zero, suc, ◌≡◌, refl, pos, negsuc, true, List, [], ◌∷◌, ◌++◌, none, some, arith, get_elem?,
  set, remove_at, tabulate,
}
use pony_downloader.Common.Bits.{test_bit, set_bit, clear_bit, keep_low}
use pony_downloader.PieceMap.{
  PieceMap, new_piece_map, new_piece_map_from_bytes, add, delete, update, get, to_bytes,
  completed_bit, write_bit, clear_unused_bits, shift_left,
}
use pony_downloader.PieceMap.Bitset.{IsBytes}
use pony_downloader.PieceMap.Invariant.{pieces, IsWellFormed, add_lem}
use pony_downloader.PieceMap.Laws.{new_piece_map-IsWellFormed, get-pieces, update_lem}
use pony_downloader.PieceMap.Removal.{delete_lem}
use pony_downloader.PieceMap.Restore.{
  new_piece_map_from_bytes_lem, new_piece_map_from_bytes-to_bytes,
}

abbrev nine : PieceMap
nine = new_piece_map (pos 9) (pos 16384)

nine-IsWellFormed : IsWellFormed nine
nine-IsWellFormed = new_piece_map-IsWellFormed 9 (pos 16384)

-- The wire format: piece 0 is bit 0 of byte 0.
wire_format :
    update (new_piece_map (pos 9) (pos 1)) (pos 8) true
    ≡ some
        (record { piece_count = 9; piece_size = pos 1; completed_pieces = 1; bytes = 0 ∷ 1 ∷ [] })
unfolding update new_piece_map completed_bit write_bit test_bit set_bit
wire_format = refl

removal :
    delete
      (record { piece_count = 9; piece_size = pos 1; completed_pieces = 2; bytes = 129 ∷ 1 ∷ [] })
      (pos 0)
    ≡ some (record { piece_count = 8; piece_size = pos 1; completed_pieces = 1; bytes = 192 ∷ [] })
unfolding delete completed_bit write_bit shift_left clear_unused_bits test_bit set_bit clear_bit
    keep_low
removal = refl

out_of_range : get (new_piece_map (pos 9) (pos 1)) (negsuc 0) ≡ none
unfolding get
out_of_range = refl

add_example : (pieces (add nine true) ≡ pieces nine ++ true ∷ []) × IsWellFormed (add nine true)
add_example = add_lem nine nine-IsWellFormed true

get_example : (get nine (pos 3) ≡ get_elem? (pieces nine) 3) × (get nine (negsuc 3) ≡ none)
get_example = get-pieces nine nine-IsWellFormed 3

abbrev nine_size : nine.piece_count ≡ 9
unfolding new_piece_map
nine_size = refl

update_example :
    (m' : PieceMap) × (update nine (pos 8) true ≡ some m')
    × ((pieces m' ≡ set (pieces nine) 8 true)
        × IsWellFormed m'
        × (m'.piece_count ≡ nine.piece_count))
unfolding new_piece_map
update_example = update_lem nine nine-IsWellFormed 8 true (omega arith)

delete_example :
    (m' : PieceMap) × (delete nine (pos 3) ≡ some m')
    × (pieces m' ≡ remove_at (pieces nine) 3)
    × IsWellFormed m'
unfolding new_piece_map
delete_example = delete_lem nine nine-IsWellFormed 3 (omega arith)

abbrev two_bytes : List ℕ
two_bytes = 255 ∷ 255 ∷ []

two_bytes-IsBytes : IsBytes two_bytes
two_bytes-IsBytes zero = omega arith
two_bytes-IsBytes (suc zero) = omega arith
two_bytes-IsBytes (suc (suc i)) = omega arith

new_piece_map_from_bytes_example :
    (m : PieceMap) × (new_piece_map_from_bytes (pos 9) (pos 16384) two_bytes ≡ some m)
    × IsWellFormed m
    × (pieces m ≡ tabulate 9 (completed_bit two_bytes))
new_piece_map_from_bytes_example =
    new_piece_map_from_bytes_lem 9 (pos 16384) two_bytes refl two_bytes-IsBytes

round_trip_example :
    new_piece_map_from_bytes (pos nine.piece_count) nine.piece_size (to_bytes nine) ≡ some nine
round_trip_example = new_piece_map_from_bytes-to_bytes nine nine-IsWellFormed
