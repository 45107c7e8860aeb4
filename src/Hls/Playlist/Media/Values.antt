-- ===== src/Hls/Playlist/Media/Values.antt =====
-- The byte ranges and keys that the tags of a playlist give.
use pony_downloader.Common.{
  ℤ, pos, ◌≤ℤ◌, leb_ℤ, ltb_ℤ, not, ◌&&◌, [], Option, none, some, ◌==◌, if◌then◌else◌, ◌≡◌, arith,
  if_cases, if_both, WhenSome, length,
}
use pony_downloader.Common.Text.{Bytes, codes, cut, is_empty, eq_bytes, to_lower}
use pony_downloader.Hls.Attributes.{
  Attributes, ByteRange, sized, with_offset, parse_byte_range, parse_int64, attribute,
  find_attribute, unquote, parse_attributes,
}
use pony_downloader.Hls.Playlist.Defs.{
  key_without_uri, unsupported_key_format, sample_aes, unsupported_method, Result, ok, err, WhenOk,
}
use pony_downloader.Hls.Playlist.Media.Keys.{
  Key, parse_key, aes_128_key, aes_key, with_iv, decode_hex, trim_prefix,
}
use pony_downloader.Hls.Playlist.Media.{map_range, some_range}

abbrev pub HasLength : ByteRange → Type 0
HasLength b = pos 1 ≤ℤ b.range_length

with_offset_lem : (n d : ℤ) (s : Bytes) → pos 1 ≤ℤ n → WhenSome HasLength (with_offset n d s)
with_offset_lem n d s h =
    if_both (WhenSome HasLength) (is_empty s) (some (record { range_length = n; offset = d })) _ h (
      if_both (WhenSome HasLength) (ltb_ℤ (parse_int64 s) (pos 0)) none
        (some (record { range_length = n; offset = parse_int64 s })) tt h)

sized_lem : (n d : ℤ) (s : Bytes) → WhenSome HasLength (sized n d s)
sized_lem n d s =
    if_cases (WhenSome HasLength) (leb_ℤ n (pos 0)) none (with_offset n d s) (λ h. tt)
      (λ h. with_offset_lem n d s (ground (arith, h)))

pub parse_byte_range_lem : (s : Bytes) (d : ℤ) → WhenSome HasLength (parse_byte_range s d)
unfolding parse_byte_range
parse_byte_range_lem s d =
    elim (cut b'@' s)
      as (λ o. WhenSome HasLength (elim o [
        | none ↦ sized (parse_int64 s) d []
        | some (length_part, offset_part) ↦ sized (parse_int64 length_part) d offset_part
      ])) [
        | none ↦ sized_lem (parse_int64 s) d []
        | some (length_part, offset_part) ↦ sized_lem (parse_int64 length_part) d offset_part
      ]

-- An explicit vector has 16 bytes.
abbrev pub IvLength : Option Bytes → Type 0
IvLength none = Unit
IvLength (some iv) = length iv ≡ 16

abbrev pub KeyLength : Option Key → Type 0
KeyLength none = Unit
KeyLength (some key) = IvLength key.iv

with_iv_lem : (uri iv : Bytes) (o : Option Bytes) → WhenOk KeyLength (with_iv uri iv o)
with_iv_lem uri iv none = tt
with_iv_lem uri iv (some d) =
    if_cases (WhenOk KeyLength) (length d == 16) (ok (some (record { uri = uri; iv = some d }))) _
      (λ h. ground (arith, h)) (λ h. tt)

aes_key_lem : (uri : Bytes) (iv : Option Bytes) → WhenOk KeyLength (aes_key uri iv)
aes_key_lem uri none = tt
aes_key_lem uri (some iv) = with_iv_lem uri iv (decode_hex (trim_prefix (codes "0x") (to_lower iv)))

aes_128_key_lem :
    (resolve : Bytes → Bytes) (attrs : Attributes) → WhenOk KeyLength (aes_128_key resolve attrs)
aes_128_key_lem resolve attrs =
    let uri = unquote (attribute (codes "URI") attrs) in
    let format = unquote (attribute (codes "KEYFORMAT") attrs) in
    let other = not (is_empty format) && not (eq_bytes format (codes "identity")) in
    let key = aes_key (resolve uri) (find_attribute (codes "IV") attrs) in
    let either = if_both (WhenOk KeyLength) in
    either (is_empty uri) (err key_without_uri)
      (if other then err (unsupported_key_format format) else key) tt
      (either other (err (unsupported_key_format format)) key tt
        (aes_key_lem (resolve uri) (find_attribute (codes "IV") attrs)))

pub parse_key_lem : (resolve : Bytes → Bytes) (s : Bytes) → WhenOk KeyLength (parse_key resolve s)
unfolding parse_key
parse_key_lem resolve s =
    let attrs = parse_attributes s in
    let method = attribute (codes "METHOD") attrs in
    let rest : Result (Option Key) =
      if eq_bytes method (codes "SAMPLE-AES")
      then err sample_aes
      else err (unsupported_method method) in
    let either = if_both (WhenOk KeyLength) in
    either (eq_bytes method (codes "NONE")) (ok none)
      (if eq_bytes method (codes "AES-128") then aes_128_key resolve attrs else rest) tt
      (either (eq_bytes method (codes "AES-128")) (aes_128_key resolve attrs) rest
        (aes_128_key_lem resolve attrs)
        (either (eq_bytes method (codes "SAMPLE-AES")) (err sample_aes)
          (err (unsupported_method method)) tt tt))

abbrev pub RangeLength : Option ByteRange → Type 0
RangeLength none = Unit
RangeLength (some range) = HasLength range

pub map_range_lem : (text : Bytes) → WhenOk RangeLength (map_range text)
map_range_lem text =
    if_both (WhenOk RangeLength) (is_empty text) (ok none)
      (some_range text (parse_byte_range text (pos 0))) tt
      (given (parse_byte_range text (pos 0)) (parse_byte_range_lem text (pos 0)))
  where
    given : (o : Option ByteRange) → WhenSome HasLength o → WhenOk RangeLength (some_range text o)
    given none h = tt
    given (some b) h = h
