-- ===== src/Hls/Crypto/Iv.antt =====
-- The sequence number and the bytes that spell it.
use pony_downloader.Common.{ℕ, ◌+◌, ◌*◌, ◌^◌, ◌<◌, ◌≡◌, refl, List, [], ◌∷◌, arith, length}
use pony_downloader.Hls.Crypto.{bytes_down, sequence_iv}

-- the number that bytes spell, the first one the highest
unfoldable pub big_endian : ℕ → List ℕ → ℕ
big_endian n [] = n
big_endian n (b ∷ bs) = big_endian (256 * n + b) bs

-- The vector of a sequence number below 2^64 has 16 entries, which spell the number with the
-- highest byte first.
pub sequence_iv_lem :
    (sequence : ℕ)
    → sequence < 2 ^ 64
    → (length (sequence_iv sequence) ≡ 16) × (big_endian 0 (sequence_iv sequence) ≡ sequence)
unfolding sequence_iv bytes_down big_endian
sequence_iv_lem sequence h = (refl, omega (arith, h))
