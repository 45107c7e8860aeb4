-- ===== src/Hls/Playlist/Media/Segments.antt =====
-- What every segment of a parsed media playlist satisfies.
use pony_downloader.Common.{
  ℤ, pos, ◌≤ℤ◌, Bool, true, false, List, [], ◌∷◌, ◌++◌, Option, none, some, if◌then◌else◌, ◌≡◌,
  refl, if_cases, if_both, WhenSome, length,
}
use pony_downloader.Common.Text.{Bytes, codes, is_empty, eq_bytes}
use pony_downloader.Hls.Attributes.{Attributes, ByteRange, attribute, unquote, parse_attributes}
use pony_downloader.Hls.Playlist.Defs.{
  map_without_iv, map_without_uri, changing_map, ◌>>=◌, Result, ok, err, WhenOk, WhenOk->>=,
  WhenOk-ok, lines_of,
}
use pony_downloader.Hls.Playlist.Media.Keys.{Key, parse_key}
use pony_downloader.Hls.Playlist.Media.{
  Segment, Media, MediaReader, Line, uri_line, key_tag, map_tag, sequence_tag, version_tag,
  byterange_tag, gap_tag, discontinuity_tag, endlist_tag, other_tag, read_line, parse_media,
  read_segment, read_map, read_byterange, map_range, with_init, enter_map, new_media_reader,
  with_byterange, init_section, add_segment, track, check_map_key, size_of,
}
use pony_downloader.Hls.Playlist.Media.Fold.{read_lines-keep, parse_media-from}
use pony_downloader.Hls.Playlist.Media.Values.{
  HasLength, RangeLength, KeyLength, IvLength, parse_byte_range_lem, parse_key_lem, map_range_lem,
}

-- Of a media segment the byte range is not empty and gives the size, which is 0 without one. An init
-- section has no size, and its byte range is not empty.
abbrev pub RangeFits : Bool → Option ByteRange → ℤ → Type 0
RangeFits is_init none size = size ≡ pos 0
RangeFits true (some range) size = (pos 1 ≤ℤ range.range_length) × (size ≡ pos 0)
RangeFits false (some range) size = (pos 1 ≤ℤ range.range_length) × (size ≡ range.range_length)

-- An explicit vector has 16 bytes, and the key of an init section has one.
abbrev pub KeyFits : Bool → Option Key → Type 0
KeyFits is_init none = Unit
KeyFits true (some key) = (iv : Bytes) × (key.iv ≡ some iv) × (length iv ≡ 16)
KeyFits false (some key) = IvLength key.iv

pub record IsSegment (s : Segment) : Type 0 where
  pub range : RangeFits s.is_init s.byterange s.size
  pub key : KeyFits s.is_init s.key

abbrev pub AllSegments : List Segment → Type 0
AllSegments [] = Unit
AllSegments (s ∷ segments) = IsSegment s × AllSegments segments

AllSegments-append :
    (ss ts : List Segment) → AllSegments ss → AllSegments ts → AllSegments (ss ++ ts)
AllSegments-append [] ts h k = k
AllSegments-append (s ∷ ss) ts h k = (h.0, AllSegments-append ss ts h.1 k)

-- what the loop keeps
record IsSound (r : MediaReader) : Type 0 where
  pub segments : AllSegments r.media.segments
  pub pending : RangeLength r.pending_byterange
  pub current : KeyLength r.current_key

module _ (resolve : Bytes → Bytes) (r : MediaReader) (v : IsSound r) where
  read_segment-IsSound : (line : Bytes) → IsSound (read_segment resolve r line)
  unfolding read_segment
  read_segment-IsSound line = record {
    segments = AllSegments-append r.media.segments _ v.segments (
      record { range = range r.pending_byterange v.pending; key = key r.current_key v.current },
      tt,
    );
    pending = tt;
    current = v.current;
  }
    where
      range : (o : Option ByteRange) → RangeLength o → RangeFits false o (size_of o)
      range none h = refl
      range (some b) h = (h, refl)

      key : (o : Option Key) → KeyLength o → KeyFits false o
      key none h = tt
      key (some k) h = h

  with_init-IsSound :
      (resolved identity : Bytes) (range : Option ByteRange)
      → RangeLength range
      → WhenOk IsSound (with_init r resolved identity range)
  with_init-IsSound resolved identity range h =
      if_cases (WhenOk IsSound) (check_map_key r.current_key)
        (ok (
          track (record r {
            media = record (add_segment (init_section r resolved range) r.media) { is_fmp4 = true };
            map_identity = identity;
          })))
        (err map_without_iv)
        (λ c. record {
          segments =
              AllSegments-append r.media.segments _ v.segments
                (record { range = fits range h; key = key r.current_key c v.current }, tt);
          pending = v.pending;
          current = v.current;
        })
        (λ c. tt)
    where
      fits : (o : Option ByteRange) → RangeLength o → RangeFits true o (pos 0)
      fits none h = refl
      fits (some b) h = (h, refl)

      vector :
          (o : Option Bytes)
          → elim o [ none ↦ false | some iv ↦ true ] ≡ true
          → IvLength o
          → (iv : Bytes) × (o ≡ some iv) × (length iv ≡ 16)
      vector none c h = cc
      vector (some iv) c h = (iv, refl, h)

      key : (o : Option Key) → check_map_key o ≡ true → KeyLength o → KeyFits true o
      key none c h = tt
      key (some k) c h = vector k.iv c h

  read_map-IsSound : (attrs : Attributes) → WhenOk IsSound (read_map resolve r attrs)
  unfolding read_map
  read_map-IsSound attrs =
      let uri = unquote (attribute (codes "URI") attrs) in
      let text = attribute (codes "BYTERANGE") attrs in
      let resolved = resolve uri in
      let again : Result MediaReader =
        ok (record r { media = record r.media { is_fmp4 = true } }) in
      let same = eq_bytes r.map_identity (resolved ++ 0 ∷ text) in
      let first : Result MediaReader =
        map_range text >>= with_init r resolved (resolved ++ 0 ∷ text) in
      if_both (WhenOk IsSound) (is_empty uri) (err map_without_uri) (enter_map r resolved text) tt (
        if_both (WhenOk IsSound) (is_empty r.map_identity) first
          (if same then again else err changing_map)
          (WhenOk->>= RangeLength IsSound (map_range text)
            (with_init r resolved (resolved ++ 0 ∷ text)) (map_range_lem text)
            (with_init-IsSound resolved (resolved ++ 0 ∷ text)))
          (if_both (WhenOk IsSound) same again (err changing_map)
            (record { segments = v.segments; pending = v.pending; current = v.current }) tt))

  with_byterange-IsSound :
      (line : Bytes) (o : Option ByteRange)
      → WhenSome HasLength o
      → WhenOk IsSound (with_byterange r line o)
  with_byterange-IsSound line none h = tt
  with_byterange-IsSound line (some b) h = record {
    segments = v.segments;
    pending = h;
    current = v.current;
  }

  read_line-IsSound : (line : Line) → WhenOk IsSound (read_line resolve r line)
  unfolding read_line read_byterange
  read_line-IsSound (uri_line line) = read_segment-IsSound line
  read_line-IsSound (key_tag attrs) =
      WhenOk->>= KeyLength IsSound (parse_key resolve attrs)
        (λ key. ok (track (record r { current_key = key }))) (parse_key_lem resolve attrs)
        (λ key h. record { segments = v.segments; pending = v.pending; current = h })
  read_line-IsSound (map_tag attrs) = read_map-IsSound (parse_attributes attrs)
  read_line-IsSound (byterange_tag line value) =
      with_byterange-IsSound line _ (parse_byte_range_lem value r.last_range_end)
  read_line-IsSound gap_tag = record {
    segments = v.segments;
    pending = v.pending;
    current = v.current;
  }
  read_line-IsSound discontinuity_tag = record {
    segments = v.segments;
    pending = v.pending;
    current = v.current;
  }
  read_line-IsSound endlist_tag = record {
    segments = v.segments;
    pending = v.pending;
    current = v.current;
  }
  read_line-IsSound (sequence_tag value) = record {
    segments = v.segments;
    pending = v.pending;
    current = v.current;
  }
  read_line-IsSound (version_tag value) = record {
    segments = v.segments;
    pending = v.pending;
    current = v.current;
  }
  read_line-IsSound other_tag = record {
    segments = v.segments;
    pending = v.pending;
    current = v.current;
  }

-- Whatever playlist is parsed, of each of its media segments the byte range is not empty and gives the
-- size, which is 0 without one; an explicit vector of its key has 16 bytes. Of an init section the byte
-- range is not empty, the size is 0, and its key has an explicit vector of 16 bytes.
pub parse_media-AllSegments :
    (resolve : Bytes → Bytes) (content : Bytes) {m : Media}
    → parse_media resolve content ≡ ok m
    → AllSegments m.segments
parse_media-AllSegments resolve content e =
    WhenOk-ok (λ (m : Media). AllSegments m.segments)
      (parse_media-from resolve content IsSound (λ m. AllSegments m.segments) (λ r v. v.segments)
        (read_lines-keep resolve IsSound (λ r line v. read_line-IsSound resolve r v line)
          new_media_reader (lines_of content)
          (record { segments = tt; pending = tt; current = tt })))
      e
