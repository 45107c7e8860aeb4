-- ===== src/PieceMap/Bitset.antt =====
-- Reads and writes of single bits in a list of bytes.
use pony_downloader.Common.{
  ℕ, zero, suc, ◌-◌, ◌/◌, ◌%◌, ◌<◌, ◌≤◌, ◌≡◌, ◌≢◌, refl, Bool, true, false, List, [], ◌∷◌, ◌++◌,
  arith, ltb, ◌==◌, if◌then◌else◌, if_cases, length, get_or, set, length-set, get_or-set_self,
  get_or-set_ne,
}
use native.Mathlib.Decide.{ℕ_discrete}
use pony_downloader.Common.Bits.{
  set_bit, clear_bit, keep_low, test_bit-set_bit, test_bit-clear_bit, test_bit-keep_low, set_bit-lt,
  clear_bit-lt, keep_low-lt, test_bit-zero,
}
use pony_downloader.PieceMap.{completed_bit, write_bit, clear_unused_bits, packed_piece_byte_count}

abbrev pub IsBytes : List ℕ → Type 0
IsBytes d = (i : ℕ) → get_or d i 0 < 256

pub set-IsBytes : (d : List ℕ) (i b : ℕ) → IsBytes d → b < 256 → IsBytes (set d i b)
set-IsBytes [] i b h hb = h
set-IsBytes (x ∷ d) zero b h hb =
    λ j. elim j as (λ j. get_or (b ∷ d) j 0 < 256) [ zero ↦ hb | suc j ↦ h (suc j) ]
set-IsBytes (x ∷ d) (suc i) b h hb = λ j. elim j as (λ j. get_or (x ∷ set d i b) j 0 < 256) [
  | zero ↦ h 0
  | suc j ↦ set-IsBytes d i b (λ k. h (suc k)) hb j
]

pub length-write_bit : (d : List ℕ) (i : ℕ) (b : Bool) → length (write_bit d i b) ≡ length d
unfolding write_bit
length-write_bit d i b = length-set d (i / 8) _

pub write_bit-IsBytes : (d : List ℕ) (i : ℕ) (b : Bool) → IsBytes d → IsBytes (write_bit d i b)
unfolding write_bit
write_bit-IsBytes d i true h = set-IsBytes d (i / 8) _ h (set_bit-lt _ _ (h (i / 8)) (omega arith))
write_bit-IsBytes d i false h =
    set-IsBytes d (i / 8) _ h (clear_bit-lt _ _ (h (i / 8)) (omega arith))

-- A bit that was written reads back, and no other bit has changed.
pub completed_bit-write_bit :
    (d : List ℕ) (i j : ℕ) (b : Bool)
    → IsBytes d
    → i / 8 < length d
    → completed_bit (write_bit d i b) j ≡ (if i == j then b else completed_bit d j)
unfolding completed_bit write_bit
completed_bit-write_bit d i j true h l = elim (ℕ_discrete (i / 8) (j / 8)) [
  | yes e ↦
      rw
        (
          ← e,
          get_or-set_self d (i / 8) _ 0 l,
          test_bit-set_bit (get_or d (i / 8) 0) (i % 8) (j % 8) (h (i / 8)) (omega arith)
              (omega arith),
        )
        (ground arith)
  | no n ↦
      rw (get_or-set_ne d (i / 8) (j / 8) (set_bit (get_or d (i / 8) 0) (i % 8)) 0 n) (ground arith)
]
completed_bit-write_bit d i j false h l = elim (ℕ_discrete (i / 8) (j / 8)) [
  | yes e ↦
      rw
        (
          ← e,
          get_or-set_self d (i / 8) _ 0 l,
          test_bit-clear_bit (get_or d (i / 8) 0) (i % 8) (j % 8) (h (i / 8)) (omega arith)
              (omega arith),
        )
        (ground arith)
  | no n ↦
      rw (get_or-set_ne d (i / 8) (j / 8) (clear_bit (get_or d (i / 8) 0) (i % 8)) 0 n)
        (ground arith)
]

-- What lies past the end reads as clear.
pub get_or-past_end : (d : List ℕ) (i : ℕ) → length d ≤ i → get_or d i 0 ≡ 0
get_or-past_end [] i h = refl
get_or-past_end (x ∷ d) zero h = absurd (omega arith)
get_or-past_end (x ∷ d) (suc i) h = get_or-past_end d i (omega arith)

pub completed_bit-past_end : (d : List ℕ) (i : ℕ) → length d ≤ i / 8 → completed_bit d i ≡ false
unfolding completed_bit
completed_bit-past_end d i h =
    rw (get_or-past_end d (i / 8) h) (test_bit-zero (i % 8) (omega arith))

-- A zero byte at the end adds no set bit.
pub get_or-grown : (d : List ℕ) (i : ℕ) → get_or (d ++ 0 ∷ []) i 0 ≡ get_or d i 0
get_or-grown [] zero = refl
get_or-grown [] (suc i) = refl
get_or-grown (x ∷ d) zero = refl
get_or-grown (x ∷ d) (suc i) = get_or-grown d i

pub clear_unused_bits-IsBytes : (n : ℕ) (d : List ℕ) → IsBytes d → IsBytes (clear_unused_bits n d)
unfolding clear_unused_bits
clear_unused_bits-IsBytes n d h =
    if_cases IsBytes (n == 0) _ _ (λ _. h)
      (λ _.
        if_cases IsBytes (n % 8 == 0) _ _ (λ _. h)
          (λ _.
            set-IsBytes d (length d - 1) _ h
              (keep_low-lt (get_or d (length d - 1) 0) (n % 8) (h (length d - 1)) (omega arith))))

pub length-clear_unused_bits : (n : ℕ) (d : List ℕ) → length (clear_unused_bits n d) ≡ length d
unfolding clear_unused_bits
length-clear_unused_bits n d =
    ground (arith, length-set d (length d - 1) (keep_low (get_or d (length d - 1) 0) (n % 8)))

-- The last byte of n pieces, cut down to its used bits.
completed_bit-keep_low :
    (n : ℕ) (d : List ℕ) (i : ℕ)
    → IsBytes d
    → length d ≡ packed_piece_byte_count n
    → n % 8 ≢ 0
    → completed_bit (set d (length d - 1) (keep_low (get_or d (length d - 1) 0) (n % 8))) i
      ≡ (if ltb i n then completed_bit d i else false)
unfolding completed_bit
completed_bit-keep_low n d i h l e = elim (ℕ_discrete (length d - 1) (i / 8)) [
  | yes q ↦
      rw
        (
          ← q,
          get_or-set_self d (length d - 1) _ 0 (omega arith),
          test_bit-keep_low (get_or d (length d - 1) 0) (n % 8) (i % 8) (h (length d - 1))
              (omega arith) (omega arith),
        )
        (ground arith)
  | no q ↦
      rw (get_or-set_ne d (length d - 1) (i / 8) (keep_low (get_or d (length d - 1) 0) (n % 8)) 0 q)
        (ground (arith, get_or-past_end d (i / 8), test_bit-zero (i % 8)))
]

-- Only the bits of the first n pieces are left.
pub completed_bit-clear_unused_bits :
    (n : ℕ) (d : List ℕ) (i : ℕ)
    → IsBytes d
    → length d ≡ packed_piece_byte_count n
    → completed_bit (clear_unused_bits n d) i ≡ (if ltb i n then completed_bit d i else false)
unfolding clear_unused_bits
completed_bit-clear_unused_bits n d i h l = elim (ℕ_discrete (n % 8) 0) [
  | yes e ↦ ground (arith, completed_bit-past_end d i)
  | no e ↦ ground (arith, completed_bit-keep_low n d i h l e)
]
