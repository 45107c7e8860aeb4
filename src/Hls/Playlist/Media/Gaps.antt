-- ===== src/Hls/Playlist/Media/Gaps.antt =====
-- The gaps of a media playlist: `#EXT-X-GAP` marks the segment of the next address.
use pony_downloader.Common.{
  Bool, true, false, ◌&&◌, ◌||◌, List, [], ◌∷◌, ◌++◌, Option, none, some, if◌then◌else◌, ◌≡◌, refl,
  arith, if_both, map,
}
use pony_downloader.Common.Text.{Bytes, codes, is_empty, eq_bytes}
use pony_downloader.Hls.Attributes.{
  ByteRange, attribute, unquote, parse_attributes, parse_byte_range,
}
use pony_downloader.Hls.Playlist.Defs.{
  Result, ok, err, ◌>>=◌, WhenOk, WhenOk->>=, WhenOk->>=-any, WhenOk-map, map_without_uri,
  changing_map, map_without_iv,
}
use pony_downloader.Hls.Playlist.Media.{
  Segment, MediaReader, Line, uri_line, key_tag, map_tag, sequence_tag, version_tag, byterange_tag,
  gap_tag, discontinuity_tag, endlist_tag, other_tag, classify, read_line, read_lines, read_segment,
  read_map, read_byterange, map_range, with_init, enter_map, with_byterange, init_section,
  add_segment, track, check_map_key, has_gap,
}
use pony_downloader.Hls.Playlist.Media.Keys.{parse_key}

abbrev pub is_address : Line → Bool
is_address (uri_line line) = true
is_address line = false

-- whether a gap is announced behind a line
abbrev pub announced : Bool → Line → Bool
announced pending (uri_line line) = false
announced pending gap_tag = true
announced pending line = pending

-- An address among the lines has a gap tag since the address before it.
abbrev pub gapped : Bool → List Line → Bool
gapped pending [] = false
gapped pending (line ∷ lines) =
    (is_address line && pending) || gapped (announced pending line) lines

has_gap-append :
    (ss : List Segment) (s : Segment) → has_gap (ss ++ s ∷ []) ≡ (has_gap ss || s.is_gap)
has_gap-append [] s = ground arith
has_gap-append (t ∷ ss) s = ground (arith, has_gap-append ss s)

-- one line
record ReadsGap (r : MediaReader) (line : Line) (r' : MediaReader) : Type 0 where
  gap_eq :
      has_gap r'.media.segments ≡ (has_gap r.media.segments || (is_address line && r.pending_gap))
  pending_eq : r'.pending_gap ≡ announced r.pending_gap line

false-last : (b c : Bool) → b ≡ (b || (false && c))
false-last b c = ground arith

module _ (resolve : Bytes → Bytes) (r : MediaReader) where
  -- a line of another kind that adds no segment
  other :
      (line : Line) (r' : MediaReader)
      → has_gap r'.media.segments ≡ has_gap r.media.segments
      → is_address line ≡ false
      → r'.pending_gap ≡ announced r.pending_gap line
      → ReadsGap r line r'
  other line r' g n e = record { gap_eq = ground (arith, g, n); pending_eq = e }

  with_init-ReadsGap :
      (attrs resolved identity : Bytes) (range : Option ByteRange)
      → WhenOk (ReadsGap r (map_tag attrs)) (with_init r resolved identity range)
  with_init-ReadsGap attrs resolved identity range =
      if_both (WhenOk (ReadsGap r (map_tag attrs))) (check_map_key r.current_key)
        (ok (
          track (record r {
            media = record (add_segment (init_section r resolved range) r.media) { is_fmp4 = true };
            map_identity = identity;
          })))
        (err map_without_iv)
        (record {
          gap_eq = ground (arith, has_gap-append r.media.segments (init_section r resolved range));
          pending_eq = refl;
        })
        tt

  read_map-ReadsGap :
      (attrs : Bytes)
      → WhenOk (ReadsGap r (map_tag attrs)) (read_map resolve r (parse_attributes attrs))
  unfolding read_map
  read_map-ReadsGap line =
      let attrs = parse_attributes line in
      let uri = unquote (attribute (codes "URI") attrs) in
      let text = attribute (codes "BYTERANGE") attrs in
      let resolved = resolve uri in
      let identity = resolved ++ 0 ∷ text in
      let again : Result MediaReader =
        ok (record r { media = record r.media { is_fmp4 = true } }) in
      let first : Result MediaReader = map_range text >>= with_init r resolved identity in
      let same_map = eq_bytes r.map_identity identity in
      let P = WhenOk (ReadsGap r (map_tag line)) in
      if_both P (is_empty uri) (err map_without_uri) (enter_map r resolved text) tt (
        if_both P (is_empty r.map_identity) first (if same_map then again else err changing_map)
          (WhenOk->>=-any (ReadsGap r (map_tag line)) (map_range text)
            (with_init r resolved identity) (with_init-ReadsGap line resolved identity))
          (if_both P same_map again (err changing_map) (other (map_tag line) _ refl refl refl) tt))

  with_byterange-ReadsGap :
      (line value : Bytes) (o : Option ByteRange)
      → WhenOk (ReadsGap r (byterange_tag line value)) (with_byterange r line o)
  with_byterange-ReadsGap line value none = tt
  with_byterange-ReadsGap line value (some b) = other (byterange_tag line value) _ refl refl refl

  read_line-ReadsGap : (line : Line) → WhenOk (ReadsGap r line) (read_line resolve r line)
  unfolding read_line read_byterange read_segment
  read_line-ReadsGap (uri_line line) = record {
    gap_eq = has_gap-append r.media.segments _;
    pending_eq = refl;
  }
  read_line-ReadsGap (key_tag attrs) =
      WhenOk->>=-any (ReadsGap r (key_tag attrs)) (parse_key resolve attrs)
        (λ key. ok (track (record r { current_key = key })))
        (λ key. other (key_tag attrs) _ refl refl refl)
  read_line-ReadsGap (map_tag attrs) = read_map-ReadsGap attrs
  read_line-ReadsGap (byterange_tag line value) =
      with_byterange-ReadsGap line value (parse_byte_range value r.last_range_end)
  read_line-ReadsGap gap_tag = other gap_tag _ refl refl refl
  read_line-ReadsGap discontinuity_tag = other discontinuity_tag _ refl refl refl
  read_line-ReadsGap endlist_tag = other endlist_tag _ refl refl refl
  read_line-ReadsGap (sequence_tag value) = other (sequence_tag value) _ refl refl refl
  read_line-ReadsGap (version_tag value) = other (version_tag value) _ refl refl refl
  read_line-ReadsGap other_tag = other other_tag _ refl refl refl

-- what a stretch of lines adds
pub record HasGaps (r : MediaReader) (lines : List Line) (r' : MediaReader) : Type 0 where
  pub gaps_eq : has_gap r'.media.segments ≡ (has_gap r.media.segments || gapped r.pending_gap lines)

HasGaps-more :
    (r r' r'' : MediaReader) (line : Line) (lines : List Line)
    → ReadsGap r line r'
    → HasGaps r' lines r''
    → HasGaps r (line ∷ lines) r''
HasGaps-more r r' r'' line lines h k = record {
  gaps_eq = rw (k.gaps_eq, h.gap_eq, h.pending_eq) (ground arith);
}

pub read_lines-HasGaps :
    (resolve : Bytes → Bytes) (r : MediaReader) (lines : List Bytes)
    → WhenOk (HasGaps r (map classify lines)) (read_lines resolve r lines)
read_lines-HasGaps resolve r [] = record { gaps_eq = ground arith }
read_lines-HasGaps resolve r (line ∷ lines) =
    WhenOk->>= (ReadsGap r (classify line)) (HasGaps r (classify line ∷ map classify lines))
      (read_line resolve r (classify line)) (λ r'. read_lines resolve r' lines)
      (read_line-ReadsGap resolve r (classify line))
      (λ r' h.
        WhenOk-map (HasGaps r' (map classify lines))
          (HasGaps r (classify line ∷ map classify lines)) (read_lines resolve r' lines)
          (λ r'' k. HasGaps-more r r' r'' (classify line) (map classify lines) h k)
          (read_lines-HasGaps resolve r' lines))
