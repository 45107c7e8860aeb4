-- ===== src/Hls/Playlist/Media/Keys.antt =====
-- internal/protocol/hls/playlist.go: `parseKey`, with what it calls of Go's `encoding/hex`.
use pony_downloader.Common.{
  ℕ, ◌+◌, ◌-◌, ◌*◌, not, ◌&&◌, [], ◌∷◌, Option, none, some, leb, ◌==◌, if◌then◌else◌, length,
}
use pony_downloader.Common.Text.{Bytes, codes, is_empty, eq_bytes, strip_prefix, to_lower, is_digit}
use pony_downloader.Hls.Attributes.{
  Attributes, find_attribute, attribute, parse_attributes, unquote,
}
use pony_downloader.Hls.Playlist.Defs.{
  key_without_uri, sample_aes, unsupported_key_format, invalid_iv, unsupported_method, Result, ok,
  err,
}

pub record Key : Type 0 where
  pub uri : Bytes
  pub iv : Option Bytes

-- the value of a hexadecimal digit
abbrev pub hex_digit : ℕ → Option ℕ
hex_digit c =
    if is_digit c
    then some (c - b'0')
    else if leb b'a' c && leb c b'f'
    then some (c - b'a' + 10)
    else if leb b'A' c && leb c b'F'
    then some (c - b'A' + 10)
    else none

abbrev pub hex_byte : Option ℕ → Option ℕ → Option Bytes → Option Bytes
hex_byte (some h) (some l) (some rest) = some ((16 * h + l) ∷ rest)
hex_byte h l rest = none

-- `hex.DecodeString`
unfoldable pub decode_hex : Bytes → Option Bytes
decode_hex [] = some []
decode_hex (c ∷ []) = none
decode_hex (c ∷ d ∷ s) = hex_byte (hex_digit c) (hex_digit d) (decode_hex s)

abbrev pub trim_prefix : Bytes → Bytes → Bytes
trim_prefix p s = elim (strip_prefix p s) [ none ↦ s | some rest ↦ rest ]

abbrev pub with_iv : Bytes → Bytes → Option Bytes → Result (Option Key)
with_iv uri iv none = err (invalid_iv iv)
with_iv uri iv (some decoded) =
    if length decoded == 16
    then ok (some (record { uri = uri; iv = some decoded }))
    else err (invalid_iv iv)

abbrev pub aes_key : Bytes → Option Bytes → Result (Option Key)
aes_key uri none = ok (some (record { uri = uri; iv = none }))
aes_key uri (some iv) = with_iv uri iv (decode_hex (trim_prefix (codes "0x") (to_lower iv)))

abbrev pub aes_128_key : (Bytes → Bytes) → Attributes → Result (Option Key)
aes_128_key resolve attrs =
    let uri = unquote (attribute (codes "URI") attrs) in
    let format = unquote (attribute (codes "KEYFORMAT") attrs) in
    if is_empty uri
    then err key_without_uri
    else if not (is_empty format) && not (eq_bytes format (codes "identity"))
    then err (unsupported_key_format format)
    else aes_key (resolve uri) (find_attribute (codes "IV") attrs)

abbrev pub key_of : (Bytes → Bytes) → Attributes → Result (Option Key)
key_of resolve attrs =
    let method = attribute (codes "METHOD") attrs in
    if eq_bytes method (codes "NONE")
    then ok none
    else if eq_bytes method (codes "AES-128")
    then aes_128_key resolve attrs
    else if eq_bytes method (codes "SAMPLE-AES")
    then err sample_aes
    else err (unsupported_method method)

-- `parseKey`, whose key is none for the method NONE; the method of a key is AES-128
unfoldable pub parse_key : (Bytes → Bytes) → Bytes → Result (Option Key)
unfolding decode_hex
parse_key resolve attrs = key_of resolve (parse_attributes attrs)
