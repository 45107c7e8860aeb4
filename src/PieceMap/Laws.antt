-- ===== src/PieceMap/Laws.antt =====
-- `NewPieceMap`, `Update` and `Get` against the list of completion states.
use pony_downloader.Common.{
  ℕ, ◌+◌, ◌-◌, ◌<◌, ◌≡◌, refl, sym, ap, ◌∙◌, ℤ, pos, negsuc, Bool, true, false, none, some, arith,
  ◌==◌, if◌then◌else◌, if_cases, get_or, set, get_elem?, replicate, length-set, list_ext,
  get_or-replicate, length-replicate, get_or-set_self, get_or-set_ne, set-get_or_same,
  get_elem?-get_or,
}
use native.Mathlib.Decide.{ℕ_discrete}
use pony_downloader.Common.Counting.{count_true, count_true-set, count_true-replicate}
use pony_downloader.PieceMap.{
  PieceMap, completed_at, set_completed, packed_piece_byte_count, new_piece_map, update_at, update,
  get, beq,
}
use pony_downloader.PieceMap.Bitset.{length-write_bit, write_bit-IsBytes, completed_bit-write_bit}
use pony_downloader.PieceMap.Invariant.{
  pieces, IsWellFormed, length-pieces, get_or-pieces, completed_bit-replicate,
}

-- A new map of n pieces has none complete.
pub pieces-new_piece_map :
    (n : ℕ) (size : ℤ) → pieces (new_piece_map (pos n) size) ≡ replicate n false
unfolding new_piece_map
pieces-new_piece_map n size =
    let m = new_piece_map (pos n) size in
    list_ext (pieces m) (replicate n false) false (length-pieces m ∙ sym (length-replicate n false))
      λ i l.
        get_or-pieces m i (omega (arith, length-pieces m))
        ∙ completed_bit-replicate (packed_piece_byte_count n) i
        ∙ sym (get_or-replicate n i false)

pub new_piece_map-IsWellFormed : (n : ℕ) (size : ℤ) → IsWellFormed (new_piece_map (pos n) size)
unfolding new_piece_map
new_piece_map-IsWellFormed n size = record {
  sized = length-replicate {A = ℕ} (packed_piece_byte_count n) 0;
  in_bytes = λ i. omega (arith, get_or-replicate {A = ℕ} (packed_piece_byte_count n) i 0);
  clear = λ i h. completed_bit-replicate (packed_piece_byte_count n) i;
  counted = omega (arith, ap count_true (pieces-new_piece_map n size), count_true-replicate n);
}

module _ (m : PieceMap) (w : IsWellFormed m) where
  -- `Get` reads the list of pieces, and fails outside it.
  pub get-pieces : (i : ℕ) → (get m (pos i) ≡ get_elem? (pieces m) i) × (get m (negsuc i) ≡ none)
  unfolding get
  get-pieces i = (
    ground (arith, get_elem?-get_or (pieces m) i false, get_or-pieces m i, length-pieces m),
    refl,
  )

  module _ (i : ℕ) (b : Bool) (l : i < m.piece_count) where
    pieces-set_completed : pieces (set_completed m i b) ≡ set (pieces m) i b
    pieces-set_completed =
        let m' = set_completed m i b in
        list_ext (pieces m') (set (pieces m) i b) false
          (length-pieces m' ∙ sym (length-set (pieces m) i b ∙ length-pieces m))
          λ j k.
            let bit = completed_bit-write_bit m.bytes i j b w.in_bytes (omega (arith, w.sized)) in
            get_or-pieces m' j (omega (arith, length-pieces m'))
            ∙ bit
            ∙ same j (omega (arith, length-pieces m'))
      where
        same :
            (j : ℕ)
            → j < m.piece_count
            → (if i == j then b else completed_at m j) ≡ get_or (set (pieces m) i b) j false
        same j k = elim (ℕ_discrete i j) [
          | yes e ↦
              rw (← e, get_or-set_self (pieces m) i b false (omega (arith, length-pieces m)))
                (ground arith)
          | no n ↦ rw (get_or-set_ne (pieces m) i j b false n) (ground (arith, get_or-pieces m j k))
        ]

    set_completed-IsWellFormed :
        (c : ℕ)
        → c ≡ count_true (set (pieces m) i b)
        → IsWellFormed (record (set_completed m i b) { completed_pieces = c })
    set_completed-IsWellFormed c e = record {
      sized = length-write_bit m.bytes i b ∙ w.sized;
      in_bytes = write_bit-IsBytes m.bytes i b w.in_bytes;
      clear = λ j h. ground (
        arith,
        completed_bit-write_bit m.bytes i j b w.in_bytes (omega (arith, w.sized)),
        w.clear j h,
      );
      counted = e ∙ sym (ap count_true pieces-set_completed);
    }

    beq-true : (x y : Bool) → beq x y ≡ true → x ≡ y
    unfolding beq
    beq-true x y h = ground arith

    abbrev Updated : PieceMap → Type 0
    Updated m' =
        (pieces m' ≡ set (pieces m) i b) × IsWellFormed m' × (m'.piece_count ≡ m.piece_count)

    old_bit : get_or (pieces m) i false ≡ completed_at m i
    old_bit = get_or-pieces m i l

    unchanged : completed_at m i ≡ b → Updated m
    unchanged e = (
      sym (ap (set (pieces m) i) (sym (old_bit ∙ e)) ∙ set-get_or_same (pieces m) i false),
      w,
      refl,
    )

    changed :
        beq (completed_at m i) b ≡ false
        → Updated (record (set_completed m i b) {
          completed_pieces = if b then m.completed_pieces + 1 else m.completed_pieces - 1;
        })
    unfolding beq
    changed e = (
      pieces-set_completed,
      set_completed-IsWellFormed _ (
          ground (
            arith,
            w.counted,
            old_bit,
            count_true-set (pieces m) i b (omega (arith, length-pieces m)),
          )),
      refl,
    )

    -- `Update` sets one piece of the list and keeps the invariant, the counter included.
    pub update_lem : (m' : PieceMap) × (update m (pos i) b ≡ some m') × Updated m'
    unfolding update
    update_lem = (
      update_at m i b,
      ground arith,
      if_cases Updated (beq (completed_at m i) b) _ _ (λ e. unchanged (beq-true _ _ e)) changed,
    )
