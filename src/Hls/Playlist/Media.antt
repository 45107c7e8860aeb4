-- ===== src/Hls/Playlist/Media.antt =====
-- internal/protocol/hls/playlist.go: media playlists. The duration of a segment, a floating point
-- number that nothing but the extractor of `#EXTINF` handles, is left out.
pub mod Keys
mod Values
pub mod Fold
pub mod Segments
pub mod Lines
pub mod Gaps
pub mod Order
use pony_downloader.Common.{
  ℕ, ℤ, pos, ◌+ℤ◌, wrap, Bool, true, false, not, ◌&&◌, ◌||◌, List, [], ◌∷◌, ◌++◌, Option, none,
  some, ◌==◌, if◌then◌else◌,
}
use pony_downloader.Common.Text.{Bytes, codes, is_empty, eq_bytes, strip_prefix}
use pony_downloader.Hls.Attributes.{
  Attributes, attribute, parse_attributes, unquote, parse_int64, ByteRange, parse_byte_range,
}
use pony_downloader.Hls.Playlist.Defs.{
  PlaylistError, no_segments, map_without_uri, changing_map, map_without_iv, invalid_map_byterange,
  invalid_byterange, live_stream, discontinuity, gap, Result, ok, err, ◌>>=◌, lines_of,
  validate_m3u8_header,
}
use pony_downloader.Hls.Playlist.Media.Keys.{Key, parse_key}

pub record Segment : Type 0 where
  pub uri : Bytes
  pub sequence : ℤ
  pub byterange : Option ByteRange
  pub key : Option Key
  pub is_init : Bool
  pub is_gap : Bool
  pub size : ℤ

pub record Media : Type 0 where
  pub segments : List Segment
  pub version : ℤ
  pub live : Bool
  pub is_fmp4 : Bool
  pub has_discontinuity : Bool

-- the variables of `ParseMedia`
pub record MediaReader : Type 0 where
  pub media : Media
  pub current_key : Option Key
  pub pending_byterange : Option ByteRange
  pub pending_gap : Bool
  pub last_range_end : ℤ
  pub sequence : ℤ
  pub map_identity : Bytes

-- what a line is to the loop, with the text behind its tag
pub data Line : Type 0 where
  uri_line key_tag map_tag sequence_tag version_tag : Bytes → Line
  byterange_tag : Bytes → Bytes → Line
  gap_tag discontinuity_tag endlist_tag other_tag : Line

abbrev pub or_else : (Bytes → Line) → Option Bytes → Line → Line
or_else tag (some rest) other = tag rest
or_else tag none other = other

abbrev pub tag_of : Bytes → Line
tag_of line = or_else key_tag (strip_prefix (codes "#EXT-X-KEY:") line) (
    or_else map_tag (strip_prefix (codes "#EXT-X-MAP:") line) (
      or_else (byterange_tag line) (strip_prefix (codes "#EXT-X-BYTERANGE:") line) (
        if eq_bytes line (codes "#EXT-X-GAP")
        then gap_tag
        else if eq_bytes line (codes "#EXT-X-DISCONTINUITY")
        then discontinuity_tag
        else if eq_bytes line (codes "#EXT-X-ENDLIST")
        then endlist_tag
        else or_else sequence_tag (strip_prefix (codes "#EXT-X-MEDIA-SEQUENCE:") line)
            (or_else version_tag (strip_prefix (codes "#EXT-X-VERSION:") line) other_tag))))

unfoldable pub classify : Bytes → Line
classify [] = other_tag
classify (c ∷ line) = if c == b'#' then tag_of (c ∷ line) else uri_line (c ∷ line)

abbrev pub add_segment : Segment → Media → Media
add_segment s media = record media { segments = media.segments ++ s ∷ [] }

-- the size that a byte range gives a segment
abbrev pub size_of : Option ByteRange → ℤ
size_of none = pos 0
size_of (some range) = range.range_length

-- `lastRangeEnd` behind a tag
abbrev pub range_end : Option ByteRange → ℤ → ℤ
range_end none last = last
range_end (some range) last = wrap (range.offset +ℤ range.range_length)

abbrev pub track : MediaReader → MediaReader
track r = record r { last_range_end = range_end r.pending_byterange r.last_range_end }

abbrev pub some_range : Bytes → Option ByteRange → Result (Option ByteRange)
some_range text none = err (invalid_map_byterange text)
some_range text (some range) = ok (some range)

-- the byte range of an init section: none is given, a bad one, or one
abbrev pub map_range : Bytes → Result (Option ByteRange)
map_range text = if is_empty text then ok none else some_range text (parse_byte_range text (pos 0))

abbrev pub with_byterange : MediaReader → Bytes → Option ByteRange → Result MediaReader
with_byterange r line none = err (invalid_byterange line)
with_byterange r line (some range) = ok (track (record r { pending_byterange = some range }))

-- Sequence numbers give the vector of media segments only.
abbrev pub check_map_key : Option Key → Bool
check_map_key none = true
check_map_key (some key) = elim key.iv [ none ↦ false | some iv ↦ true ]

abbrev pub init_section : MediaReader → Bytes → Option ByteRange → Segment
init_section r resolved range = record {
  uri = resolved;
  sequence = r.sequence;
  byterange = range;
  key = r.current_key;
  is_init = true;
  is_gap = false;
  size = pos 0;
}

abbrev pub with_init : MediaReader → Bytes → Bytes → Option ByteRange → Result MediaReader
with_init r resolved identity range =
    if check_map_key r.current_key
    then ok (
        track (record r {
          media = record (add_segment (init_section r resolved range) r.media) { is_fmp4 = true };
          map_identity = identity;
        }))
    else err map_without_iv

-- an `#EXT-X-MAP` with a resolved address and the text of its byte range
abbrev pub enter_map : MediaReader → Bytes → Bytes → Result MediaReader
enter_map r resolved range_text =
    let identity = resolved ++ 0 ∷ range_text in
    if is_empty r.map_identity
    then map_range range_text >>= with_init r resolved identity
    else if eq_bytes r.map_identity identity
    then ok (record r { media = record r.media { is_fmp4 = true } })
    else err changing_map

unfoldable pub read_byterange : MediaReader → Bytes → Bytes → Result MediaReader
read_byterange r line value = with_byterange r line (parse_byte_range value r.last_range_end)

abbrev pub new_media_reader : MediaReader
new_media_reader = record {
  media = record {
    segments = [];
    version = pos 0;
    live = true;
    is_fmp4 = false;
    has_discontinuity = false;
  };
  current_key = none;
  pending_byterange = none;
  pending_gap = false;
  last_range_end = pos 0;
  sequence = pos 0;
  map_identity = [];
}

abbrev pub with_segments : Media → List Segment → Result Media
with_segments media [] = err no_segments
with_segments media (s ∷ segments) = ok media

module _ (resolve : Bytes → Bytes) where
  unfoldable pub read_segment : MediaReader → Bytes → MediaReader
  read_segment r line = record r {
    media =
        add_segment
          (record {
            uri = resolve line;
            sequence = r.sequence;
            byterange = r.pending_byterange;
            key = r.current_key;
            is_init = false;
            is_gap = r.pending_gap;
            size = size_of r.pending_byterange;
          })
          r.media;
    sequence = wrap (r.sequence +ℤ pos 1);
    pending_byterange = none;
    pending_gap = false;
  }

  unfoldable pub read_map : MediaReader → Attributes → Result MediaReader
  read_map r attrs =
      let uri = unquote (attribute (codes "URI") attrs) in
      if is_empty uri
      then err map_without_uri
      else enter_map r (resolve uri) (attribute (codes "BYTERANGE") attrs)

  -- one round of the loop of `ParseMedia`
  unfoldable pub read_line : MediaReader → Line → Result MediaReader
  unfolding read_segment read_map read_byterange
  read_line r (uri_line line) = ok (read_segment r line)
  read_line r (key_tag attrs) =
      parse_key resolve attrs >>= λ key. ok (track (record r { current_key = key }))
  read_line r (map_tag attrs) = read_map r (parse_attributes attrs)
  read_line r (byterange_tag line value) = read_byterange r line value
  read_line r gap_tag = ok (track (record r { pending_gap = true }))
  read_line r discontinuity_tag =
      ok (track (record r { media = record r.media { has_discontinuity = true } }))
  read_line r endlist_tag = ok (track (record r { media = record r.media { live = false } }))
  read_line r (sequence_tag value) = ok (track (record r { sequence = parse_int64 value }))
  read_line r (version_tag value) =
      ok (track (record r { media = record r.media { version = parse_int64 value } }))
  read_line r other_tag = ok (track r)

  abbrev pub read_lines : MediaReader → List Bytes → Result MediaReader
  read_lines r [] = ok r
  read_lines r (line ∷ lines) = read_line r (classify line) >>= λ r'. read_lines r' lines

  -- `ParseMedia`
  unfoldable pub parse_media : Bytes → Result Media
  unfolding read_line classify lines_of validate_m3u8_header
  parse_media content = elim (validate_m3u8_header content) [
    | some e ↦ err e
    | none ↦ read_lines new_media_reader (lines_of content) >>= λ r.
        with_segments r.media r.media.segments
  ]

-- the loop of `validateSupported`
abbrev pub has_gap : List Segment → Bool
has_gap [] = false
has_gap (s ∷ segments) = s.is_gap || has_gap segments

-- `validateSupported`
unfoldable pub validate_supported : Media → Option PlaylistError
validate_supported media =
    if media.live
    then some live_stream
    else if media.has_discontinuity
    then some discontinuity
    else if has_gap media.segments
    then some gap
    else none
