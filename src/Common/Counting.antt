-- ===== src/Common/Counting.antt =====
-- How many elements of a list of Booleans are true, and the same count over a range of indices.
use native.Mathlib.Nat.{add-zero, add-suc}
use pony_downloader.Common.{
  ℕ, zero, suc, ◌+◌, ◌<◌, ◌≤◌, ◌≡◌, refl, Bool, false, List, [], ◌∷◌, ◌++◌, arith, if◌then◌else◌,
  tabulate, length, get_or, set, replicate, remove_at,
}

abbrev pub count_true : List Bool → ℕ
count_true [] = 0
count_true (b ∷ bs) = (if b then 1 else 0) + count_true bs

pub count_true-append : (xs ys : List Bool) → count_true (xs ++ ys) ≡ count_true xs + count_true ys
count_true-append [] ys = omega arith
count_true-append (x ∷ xs) ys = omega (arith, count_true-append xs ys)

abbrev pub count_below : ℕ → (ℕ → Bool) → ℕ
count_below zero f = 0
count_below (suc n) f = count_below n f + (if f n then 1 else 0)

pub count_true-tabulate : (n : ℕ) (f : ℕ → Bool) → count_true (tabulate n f) ≡ count_below n f
count_true-tabulate zero f = refl
count_true-tabulate (suc n) f =
    omega (arith, count_true-append (tabulate n f) (f n ∷ []), count_true-tabulate n f)

pub count_below_ext :
    (n : ℕ) (f g : ℕ → Bool) → ((i : ℕ) → i < n → f i ≡ g i) → count_below n f ≡ count_below n g
count_below_ext zero f g h = refl
count_below_ext (suc n) f g h =
    ground (arith, count_below_ext n f g (λ i l. h i (omega arith)), h n (omega arith))

pub count_below-add :
    (a n : ℕ) (f : ℕ → Bool)
    → count_below (a + n) f ≡ count_below a f + count_below n (λ i. f (a + i))
count_below-add a zero f = rw (add-zero a) (omega arith)
count_below-add a (suc n) f = rw (add-suc a n) (omega (arith, count_below-add a n f))

-- Where f is false from n on, counting further adds nothing.
pub count_below_clear :
    (k n : ℕ) (f : ℕ → Bool)
    → ((i : ℕ) → n ≤ i → f i ≡ false)
    → count_below (n + k) f ≡ count_below n f
count_below_clear zero n f h = rw (add-zero n)
count_below_clear (suc k) n f h =
    rw (add-suc n k) (ground (arith, count_below_clear k n f h, h (n + k) (omega arith)))

pub count_true-remove_at :
    (xs : List Bool) (i : ℕ)
    → i < length xs
    → count_true (remove_at xs i) + (if get_or xs i false then 1 else 0) ≡ count_true xs
count_true-remove_at [] i h = elim h [ ]
count_true-remove_at (x ∷ xs) zero h = omega arith
count_true-remove_at (x ∷ xs) (suc i) h = omega (arith, count_true-remove_at xs i (omega arith))

pub count_true-set :
    (xs : List Bool) (i : ℕ) (b : Bool)
    → i < length xs
    → count_true (set xs i b) + (if get_or xs i false then 1 else 0)
      ≡ count_true xs + (if b then 1 else 0)
count_true-set [] i b h = elim h [ ]
count_true-set (x ∷ xs) zero b h = omega arith
count_true-set (x ∷ xs) (suc i) b h = omega (arith, count_true-set xs i b (omega arith))

pub count_true-replicate : (n : ℕ) → count_true (replicate n false) ≡ 0
count_true-replicate zero = refl
count_true-replicate (suc n) = omega (arith, count_true-replicate n)
