-- ===== src/Hls/Crypto.antt =====
-- internal/protocol/hls/crypto.go. The block cipher is a parameter: `decrypt_blocks key iv data` is
-- what `CryptBlocks` of the CBC mode writes. A byte is a number below 256, and a sequence number is
-- the number of its 64 bits.
pub mod Padding
pub mod Iv
use pony_downloader.Common.{
  ℕ, zero, suc, ◌+◌, ◌-◌, ◌*◌, ◌/◌, ◌%◌, ◌^◌, Bool, true, false, not, ◌&&◌, ◌||◌, List, [], ◌∷◌,
  ◌++◌, Option, none, some, ltb, ◌==◌, if◌then◌else◌, length, get_or, take, drop, replicate,
}

abbrev pub block_size : ℕ
block_size = 16

-- the loop over the padding
unfoldable pub all_equal : ℕ → List ℕ → Bool
all_equal pad [] = true
all_equal pad (b ∷ bs) = let rest = all_equal pad bs in if b == pad then rest else false

-- `int(data[len(data)-1])`
abbrev pub last_byte : List ℕ → ℕ
last_byte bytes = get_or bytes (length bytes - 1) 0

-- `pkcs7Unpad` once the padding has been read from the last byte
abbrev pub unpad_by : List ℕ → ℕ → ℕ → Option (List ℕ)
unpad_by bytes size pad =
    if pad == 0 || ltb size pad || ltb (length bytes) pad
    then none
    else if all_equal pad (drop (length bytes - pad) bytes)
    then some (take (length bytes - pad) bytes)
    else none

-- `pkcs7Unpad`
unfoldable pub pkcs7_unpad : List ℕ → ℕ → Option (List ℕ)
pkcs7_unpad bytes size = if length bytes == 0 then none else unpad_by bytes size (last_byte bytes)

-- `byte(sequence >> (8 * n))`
abbrev pub byte_at : ℕ → ℕ → ℕ
byte_at sequence n = sequence / 2 ^ (8 * n) % 256

-- the bytes of the sequence number from the one at place n down
unfoldable pub bytes_down : ℕ → ℕ → List ℕ
bytes_down sequence zero = []
bytes_down sequence (suc n) = byte_at sequence n ∷ bytes_down sequence n

-- `sequenceIV`
unfoldable pub sequence_iv : ℕ → List ℕ
sequence_iv sequence = replicate 8 0 ++ bytes_down sequence 8

module _ (decrypt_blocks : List ℕ → List ℕ → List ℕ → List ℕ) where
  -- `decryptAES128`
  unfoldable pub decrypt_aes128 : List ℕ → List ℕ → List ℕ → Option (List ℕ)
  decrypt_aes128 bytes key iv =
      if not (length key == 16)
      then none
      else if not (length iv == 16)
      then none
      else if length bytes == 0 || not (length bytes % block_size == 0)
      then none
      else pkcs7_unpad (decrypt_blocks key iv bytes) block_size
