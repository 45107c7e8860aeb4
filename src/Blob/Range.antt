-- ===== src/Blob/Range.antt =====
-- internal/blob/registry.go: the ranges of bytes that a request for a source asks for, and the
-- headers and the number of bytes of the answer.
pub mod Exchange
use pony_downloader.Common.{
  ℕ, ℤ, pos, negsuc, ◌+ℤ◌, ◌-ℤ◌, ltb_ℤ, leb_ℤ, Bool, true, false, not, ◌&&◌, ◌||◌, List, [], ◌∷◌,
  ◌++◌, Option, none, some, if◌then◌else◌,
}
use pony_downloader.Common.Text.{Bytes, codes, format_ℤ, strip_prefix, cut, number, is_empty}

-- What `parseRange` returns: the whole source, a range with both its ends, or an error.
pub data RangeRequest : Type 0 where
  whole refused : RangeRequest
  ranged : ℤ → ℤ → RangeRequest

abbrev pub clamp_end : ℤ → ℤ → ℤ
clamp_end size end = if leb_ℤ size end then size -ℤ pos 1 else end

abbrev pub read_end : ℤ → ℤ → Bytes → RangeRequest
read_end start size last =
    if is_empty last then ranged start (size -ℤ pos 1) else elim (number last) [
      | none ↦ refused
      | some end ↦ if ltb_ℤ end start then refused else ranged start (clamp_end size end)
    ]

abbrev pub read_start : ℤ → Bytes → Bytes → RangeRequest
read_start size first last = if is_empty first then refused else elim (number first) [
  | none ↦ refused
  | some start ↦
      if ltb_ℤ start (pos 0) || leb_ℤ size start then refused else read_end start size last
]

abbrev pub read_range : ℤ → Option Bytes → RangeRequest
read_range size none = refused
read_range size (some text) = elim (cut b'-' text) [
  | none ↦ refused
  | some (first, last) ↦ read_start size first last
]

-- `parseRange`
unfoldable pub parse_range : Bytes → ℤ → Bool → RangeRequest
parse_range header size range_enabled =
    if is_empty header || not range_enabled
    then whole
    else if leb_ℤ size (pos 0)
    then refused
    else read_range size (strip_prefix (codes "bytes=") header)

-- the Content-Range and the Content-Length that `writeHeaders` sets
pub record SizeHeaders : Type 0 where
  pub content_range : Option Bytes
  pub content_length : Option ℤ

-- `writeHeaders`, without the content type
unfoldable pub write_headers : ℤ → RangeRequest → SizeHeaders
write_headers size (ranged start end) =
    if ltb_ℤ (pos 0) size
    then record {
      content_range =
          some
            (codes "bytes " ++ (format_ℤ start ++ b'-' ∷ (format_ℤ end ++ b'/' ∷ format_ℤ size)));
      content_length = some (end -ℤ start +ℤ pos 1);
    }
    else record { content_range = none; content_length = none }
write_headers size request = record {
  content_range = none;
  content_length = if ltb_ℤ (pos 0) size then some size else none;
}

-- the `limit` of `ServeHTTP`, which `copyWithFlush` takes for none when it is negative
abbrev pub copy_limit : ℤ → RangeRequest → ℤ
copy_limit size (ranged start end) =
    if leb_ℤ start end
    then end -ℤ start +ℤ pos 1
    else (if ltb_ℤ (pos 0) size then size else negsuc 0)
copy_limit size request = if ltb_ℤ (pos 0) size then size else negsuc 0
