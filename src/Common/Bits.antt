-- ===== src/Common/Bits.antt =====
-- Single bits of a byte, as Go writes them: `b | mask`, `b &^ mask`, `b & mask != 0` with
-- `mask = 1 << k`. Their laws are checked by evaluation over every byte and every bit.
use Prim.Native.Nat.{ℕ, zero, suc, ◌-◌, ◌^◌, ◌<◌, ◌≤◌, bit_and, bit_or}
use mathlib.Core.Path.{◌≡◌, refl}
use mathlib.Core.Bool.{Bool, true, false, not, ◌&&◌, ◌||◌}
use native.Mathlib.Omega.{arith}
use native.Mathlib.Decide.{ℕ_discrete}
use pony_downloader.Common.Tests.{ltb, ltb→lt, ◌==◌, if◌then◌else◌}

-- A finite check: the test holds of 0, …, bound - 1.
pub passes : (ℕ → Bool) → ℕ → Bool
passes test zero = true
passes test (suc bound) = if test bound then passes test bound else false

pub passes-elim :
    (test : ℕ → Bool) (bound x : ℕ) → x < bound → passes test bound ≡ true → test x ≡ true
unfolding passes
passes-elim test zero x l t = elim l [ ]
passes-elim test (suc bound) x l t = elim (ℕ_discrete x bound) [
  | yes e ↦ rw e (ground arith)
  | no n ↦ passes-elim test bound x (omega arith) (ground arith)
]

pub passes-intro :
    (test : ℕ → Bool) (bound : ℕ) → ((x : ℕ) → x < bound → test x ≡ true) → passes test bound ≡ true
unfolding passes
passes-intro test zero h = refl
passes-intro test (suc bound) h =
    rw (h bound (omega arith)) (passes-intro test bound (λ x l. h x (omega arith)))

-- `b & (1 << k) != 0`
unfoldable pub test_bit : ℕ → ℕ → Bool
test_bit b k = not (bit_and b (2 ^ k) == 0)

-- `b | (1 << k)`
unfoldable pub set_bit : ℕ → ℕ → ℕ
set_bit b k = bit_or b (2 ^ k)

-- `b &^ (1 << k)` on a byte
unfoldable pub clear_bit : ℕ → ℕ → ℕ
clear_bit b k = bit_and b (255 - 2 ^ k)

-- `b & (byte(1 << k) - 1)`
unfoldable pub keep_low : ℕ → ℕ → ℕ
keep_low b k = bit_and b (2 ^ k - 1)

beq : Bool → Bool → Bool
beq true b = b
beq false b = not b

beq_sound : (a b : Bool) → beq a b ≡ true → a ≡ b
unfolding beq
beq_sound a b h = ground arith

both_sound : (a b : Bool) → (a && b) ≡ true → (a ≡ true) × (b ≡ true)
both_sound a b h = ground arith

-- A test over all bytes and all pairs of bits.
table : (ℕ → ℕ → ℕ → Bool) → Bool
table f = passes (λ b. passes (λ k. passes (f b k) 8) 8) 256

table_sound :
    (f : ℕ → ℕ → ℕ → Bool) → table f ≡ true → (b k j : ℕ) → b < 256 → k < 8 → j < 8 → f b k j ≡ true
unfolding table
table_sound f t b k j hb hk hj =
    passes-elim (f b k) 8 j hj
      (passes-elim (λ k. passes (f b k) 8) 8 k hk (passes-elim _ 256 b hb t))

set_law : ℕ → ℕ → ℕ → Bool
set_law b k j = beq (test_bit (set_bit b k) j) (k == j || test_bit b j) && ltb (set_bit b k) 256

clear_law : ℕ → ℕ → ℕ → Bool
clear_law b k j =
    beq (test_bit (clear_bit b k) j) (not (k == j) && test_bit b j) && ltb (clear_bit b k) 256

keep_law : ℕ → ℕ → ℕ → Bool
keep_law b k j = beq (test_bit (keep_low b k) j) (ltb j k && test_bit b j) && ltb (keep_low b k) 256

set_table : table set_law ≡ true
unfolding table passes set_law beq test_bit set_bit
set_table = refl

clear_table : table clear_law ≡ true
unfolding table passes clear_law beq test_bit clear_bit
clear_table = refl

keep_table : table keep_law ≡ true
unfolding table passes keep_law beq test_bit keep_low
keep_table = refl

module _ (b k j : ℕ) (hb : b < 256) (hk : k < 8) (hj : j < 8) where
  pub test_bit-set_bit : test_bit (set_bit b k) j ≡ (k == j || test_bit b j)
  unfolding set_law
  test_bit-set_bit = beq_sound _ _ (both_sound _ _ (table_sound set_law set_table b k j hb hk hj)).0

  pub test_bit-clear_bit : test_bit (clear_bit b k) j ≡ (not (k == j) && test_bit b j)
  unfolding clear_law
  test_bit-clear_bit =
      beq_sound _ _ (both_sound _ _ (table_sound clear_law clear_table b k j hb hk hj)).0

  pub test_bit-keep_low : test_bit (keep_low b k) j ≡ (ltb j k && test_bit b j)
  unfolding keep_law
  test_bit-keep_low =
      beq_sound _ _ (both_sound _ _ (table_sound keep_law keep_table b k j hb hk hj)).0

module _ (b k : ℕ) (hb : b < 256) (hk : k < 8) where
  pub set_bit-lt : set_bit b k < 256
  unfolding set_law
  set_bit-lt =
      ltb→lt _ _ (both_sound _ _ (table_sound set_law set_table b k 0 hb hk (omega arith))).1

  pub clear_bit-lt : clear_bit b k < 256
  unfolding clear_law
  clear_bit-lt =
      ltb→lt _ _ (both_sound _ _ (table_sound clear_law clear_table b k 0 hb hk (omega arith))).1

  pub keep_low-lt : keep_low b k < 256
  unfolding keep_law
  keep_low-lt =
      ltb→lt _ _ (both_sound _ _ (table_sound keep_law keep_table b k 0 hb hk (omega arith))).1

pub test_bit-zero : (k : ℕ) → k < 8 → test_bit 0 k ≡ false
unfolding passes test_bit
test_bit-zero k h = ground (arith, passes-elim (λ k. not (test_bit 0 k)) 8 k h refl)

high_clear : ℕ → ℕ → ℕ → Bool
high_clear b k j = ltb j k || not (test_bit b j)

same_law : ℕ → ℕ → Bool
same_law b k = not (passes (high_clear b k) 8) || keep_low b k == b

same_table : passes (λ b. passes (same_law b) 8) 256 ≡ true
unfolding passes same_law high_clear test_bit keep_low
same_table = refl

-- A byte whose bits from k on are clear is kept as it is.
pub keep_low-eq :
    (b k : ℕ)
    → b < 256
    → k < 8
    → ((j : ℕ) → k ≤ j → j < 8 → test_bit b j ≡ false)
    → keep_low b k ≡ b
unfolding same_law high_clear
keep_low-eq b k hb hk h = ground (
  arith,
  passes-elim (same_law b) 8 k hk (passes-elim _ 256 b hb same_table),
  passes-intro (high_clear b k) 8 (λ j l. ground (arith, h j)),
)
