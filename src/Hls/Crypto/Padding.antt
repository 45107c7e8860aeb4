-- ===== src/Hls/Crypto/Padding.antt =====
-- The PKCS7 padding, and how it is taken off.
use pony_downloader.Common.{
  ℕ, zero, suc, ◌+◌, ◌-◌, ◌≤◌, ◌<◌, ◌≡◌, refl, ap, ◌∙◌, sym, true, false, ◌||◌, List, [], ◌∷◌, ◌++◌,
  none, some, ltb, ◌==◌, arith, Bool-cases, inl, inr, length, get_or, take, drop, replicate,
  length-append, length-replicate, length-drop, get_or-append_at,
}
use pony_downloader.Hls.Crypto.{all_equal, last_byte, unpad_by, pkcs7_unpad}

all_equal-replicate : (n a : ℕ) → all_equal a (replicate n a) ≡ true
unfolding all_equal
all_equal-replicate zero a = refl
all_equal-replicate (suc n) a = ground (arith, all_equal-replicate n a)

all_equal-elim : (a : ℕ) (bs : List ℕ) → all_equal a bs ≡ true → bs ≡ replicate (length bs) a
unfolding all_equal
all_equal-elim a [] h = refl
all_equal-elim a (b ∷ bs) h = elim (Bool-cases (b == a)) [
  | inl e ↦
      ap (λ c. c ∷ bs) (same e) ∙ ap (λ cs. a ∷ cs) (all_equal-elim a bs (ground (arith, h, e)))
  | inr e ↦ absurd (ground (arith, h, e))
]
  where
    same : (b == a) ≡ true → b ≡ a
    same e = ground (arith, e)

take-length : (xs ys : List ℕ) → take (length xs) (xs ++ ys) ≡ xs
take-length [] ys = refl
take-length (x ∷ xs) ys = ap (λ zs. x ∷ zs) (take-length xs ys)

drop-length : (xs ys : List ℕ) → drop (length xs) (xs ++ ys) ≡ ys
drop-length [] ys = refl
drop-length (x ∷ xs) ys = drop-length xs ys

take-drop : (n : ℕ) (xs : List ℕ) → take n xs ++ drop n xs ≡ xs
take-drop zero xs = refl
take-drop (suc n) [] = refl
take-drop (suc n) (x ∷ xs) = ap (λ zs. x ∷ zs) (take-drop n xs)

-- the data xs with n bytes of padding
abbrev pub padded : List ℕ → ℕ → List ℕ
padded xs n = xs ++ replicate n n

length-padded : (xs : List ℕ) (n : ℕ) → length (padded xs n) ≡ length xs + n
length-padded xs n =
    length-append xs (replicate n n) ∙ ap (λ m. length xs + m) (length-replicate n n)

get_or-replicated : (n i a : ℕ) → i < n → get_or (replicate n a) i 0 ≡ a
get_or-replicated zero i a h = absurd (omega (arith, h))
get_or-replicated (suc n) zero a h = refl
get_or-replicated (suc n) (suc i) a h = get_or-replicated n i a (omega (arith, h))

last_byte-padded : (xs : List ℕ) (n : ℕ) → 1 ≤ n → last_byte (padded xs n) ≡ n
last_byte-padded xs n o =
    let e : length (padded xs n) - 1 ≡ length xs + (n - 1) = omega (arith, length-padded xs n, o) in
    ap (λ i. get_or (padded xs n) i 0) e
    ∙ get_or-append_at xs (replicate n n) (n - 1) 0
    ∙ get_or-replicated n (n - 1) n (omega (arith, o))

unpad_by-padded :
    (xs : List ℕ) (n size : ℕ) → 1 ≤ n → n ≤ size → unpad_by (padded xs n) size n ≡ some xs
unpad_by-padded xs n size o l =
    let rest : length (padded xs n) - n ≡ length xs = omega (arith, length-padded xs n) in
    let fits : (n == 0 || ltb size n || ltb (length (padded xs n)) n) ≡ false =
      ground (arith, o, l, length-padded xs n) in
    rw
      (
        fits,
        rest,
        drop-length xs (replicate n n),
        all_equal-replicate n n,
        take-length xs (replicate n n),
      )
      refl

-- Data with 1 to `size` bytes of padding, each the number of them, is the data without them.
pub pkcs7_unpad-padded :
    (xs : List ℕ) (n size : ℕ) → 1 ≤ n → n ≤ size → pkcs7_unpad (padded xs n) size ≡ some xs
unfolding pkcs7_unpad
pkcs7_unpad-padded xs n size o l =
    let nonempty : (length (padded xs n) == 0) ≡ false = ground (arith, o, length-padded xs n) in
    rw (nonempty, last_byte-padded xs n o, unpad_by-padded xs n size o l, pkcs7_unpad) refl

some-injective : (xs ys : List ℕ) → some xs ≡ some ys → xs ≡ ys
some-injective xs ys h = ap (λ o. elim o [ none ↦ xs | some z ↦ z ]) h

unpad_by_lem :
    (bytes : List ℕ) (size pad : ℕ) (xs : List ℕ)
    → unpad_by bytes size pad ≡ some xs
    → (1 ≤ pad) × ((pad ≤ size) × (bytes ≡ padded xs pad))
unpad_by_lem bytes size pad xs h =
    elim (Bool-cases (pad == 0 || ltb size pad || ltb (length bytes) pad)) [
      | inl e ↦ absurd (ground (arith, h, e))
      | inr e ↦ elim (Bool-cases (all_equal pad (drop (length bytes - pad) bytes))) [
        | inl a ↦
            let whole : length (drop (length bytes - pad) bytes) ≡ pad =
              ground (arith, e, length-drop (length bytes - pad) bytes) in
            let front : take (length bytes - pad) bytes ≡ xs =
              some-injective _ xs (ground (arith, h, e, a)) in
            (
              ground (arith, e),
              (
                ground (arith, e),
                sym (take-drop (length bytes - pad) bytes)
                    ∙ ap (λ ys. ys ++ drop (length bytes - pad) bytes) front
                    ∙ ap (λ ys. xs ++ ys)
                        (all_equal-elim pad (drop (length bytes - pad) bytes) a
                          ∙ ap (λ m. replicate m pad) whole),
              ),
            )
        | inr a ↦ absurd (ground (arith, h, e, a))
      ]
    ]

-- Whatever is unpadded had 1 to `size` bytes of padding, each the number of them.
pub pkcs7_unpad_lem :
    (bytes : List ℕ) (size : ℕ) (xs : List ℕ)
    → pkcs7_unpad bytes size ≡ some xs
    → (1 ≤ last_byte bytes) × ((last_byte bytes ≤ size) × (bytes ≡ padded xs (last_byte bytes)))
unfolding pkcs7_unpad
pkcs7_unpad_lem bytes size xs h = elim (Bool-cases (length bytes == 0)) [
  | inl e ↦ absurd (ground (arith, h, e))
  | inr e ↦ unpad_by_lem bytes size (last_byte bytes) xs (ground (arith, h, e))
]
