-- ===== src/Hls/Playlist/Media/Lines.antt =====
-- What one line of a media playlist adds to what has been read.
use pony_downloader.Common.{
  ℤ, pos, ◌+ℤ◌, wrap, Bool, true, false, not, ◌&&◌, ◌||◌, List, [], ◌∷◌, ◌++◌, Option, none, some,
  if◌then◌else◌, ◌≡◌, refl, sym, ap, ◌∙◌, arith, append-nil, if_both,
}
use pony_downloader.Common.Text.{Bytes, codes, is_empty, eq_bytes}
use pony_downloader.Hls.Attributes.{
  ByteRange, attribute, unquote, parse_attributes, parse_int64, parse_byte_range,
}
use pony_downloader.Hls.Playlist.Defs.{
  Result, ok, err, ◌>>=◌, WhenOk, WhenOk->>=-any, map_without_uri, changing_map, map_without_iv,
}
use pony_downloader.Hls.Playlist.Media.{
  Segment, MediaReader, Line, uri_line, key_tag, map_tag, sequence_tag, version_tag, byterange_tag,
  gap_tag, discontinuity_tag, endlist_tag, other_tag, read_line, read_segment, read_map,
  read_byterange, map_range, with_init, enter_map, with_byterange, init_section, add_segment, track,
  check_map_key,
}
use pony_downloader.Hls.Playlist.Media.Keys.{parse_key}

-- the addresses and the sequence numbers of the media segments, in order
abbrev pub addresses : List Segment → List (Bytes × ℤ)
addresses [] = []
addresses (s ∷ ss) =
    let rest = addresses ss in if s.is_init then rest else (s.uri, s.sequence) ∷ rest

-- the sequence number behind a line: each address takes one, and `#EXT-X-MEDIA-SEQUENCE` sets it
abbrev pub next_sequence : ℤ → Line → ℤ
next_sequence n (uri_line line) = wrap (n +ℤ pos 1)
next_sequence n (sequence_tag value) = parse_int64 value
next_sequence n line = n

abbrev pub address_of : (Bytes → Bytes) → ℤ → Line → List (Bytes × ℤ)
address_of resolve n (uri_line line) = (resolve line, n) ∷ []
address_of resolve n line = []

-- the addresses that the lines name, each with its number
abbrev pub addressed : (Bytes → Bytes) → ℤ → List Line → List (Bytes × ℤ)
addressed resolve n [] = []
addressed resolve n (line ∷ lines) =
    address_of resolve n line ++ addressed resolve (next_sequence n line) lines

abbrev pub is_endlist : Line → Bool
is_endlist endlist_tag = true
is_endlist line = false

abbrev pub is_discontinuity : Line → Bool
is_discontinuity discontinuity_tag = true
is_discontinuity line = false

abbrev pub is_map : Line → Bool
is_map (map_tag attrs) = true
is_map line = false

abbrev pub some_line : (Line → Bool) → List Line → Bool
some_line test [] = false
some_line test (line ∷ lines) = test line || some_line test lines

addresses-append :
    (ss : List Segment) (s : Segment)
    → addresses (ss ++ s ∷ [])
      ≡ addresses ss ++ (if s.is_init then [] else (s.uri, s.sequence) ∷ [])
addresses-append [] s = ground arith
addresses-append (t ∷ ss) s = ground (arith, addresses-append ss s)

-- one line
pub record ReadsLine (resolve : Bytes → Bytes) (r : MediaReader) (line : Line) (r' : MediaReader)
    : Type 0 where
  pub addresses_eq :
      addresses r'.media.segments ≡ addresses r.media.segments ++ address_of resolve r.sequence line
  pub sequence_eq : r'.sequence ≡ next_sequence r.sequence line
  pub live_eq : r'.media.live ≡ (r.media.live && not (is_endlist line))
  pub discontinuity_eq :
      r'.media.has_discontinuity ≡ (r.media.has_discontinuity || is_discontinuity line)
  pub fmp4_eq : r'.media.is_fmp4 ≡ (r.media.is_fmp4 || is_map line)

pub &&-true : (b : Bool) → b ≡ (b && true)
&&-true b = ground arith

pub ||-false : (b : Bool) → b ≡ (b || false)
||-false b = ground arith

||-true : (b : Bool) → true ≡ (b || true)
||-true b = ground arith

module _ (resolve : Bytes → Bytes) (r : MediaReader) where
  -- a line that adds no media segment and changes nothing that counts here
  quiet :
      (line : Line) (r' : MediaReader)
      → addresses r'.media.segments ≡ addresses r.media.segments
      → address_of resolve r.sequence line ≡ []
      → r'.sequence ≡ next_sequence r.sequence line
      → (r'.media.live ≡ r.media.live) × (is_endlist line ≡ false)
      → (r'.media.has_discontinuity ≡ r.media.has_discontinuity) × (is_discontinuity line ≡ false)
      → (r'.media.is_fmp4 ≡ r.media.is_fmp4) × (is_map line ≡ false)
      → ReadsLine resolve r line r'
  quiet line r' a n s e d p = record {
    addresses_eq =
        a
        ∙ sym (append-nil (addresses r.media.segments))
        ∙ ap (λ l. addresses r.media.segments ++ l) (sym n);
    sequence_eq = s;
    live_eq = ground (arith, e.0, e.1);
    discontinuity_eq = ground (arith, d.0, d.1);
    fmp4_eq = ground (arith, p.0, p.1);
  }

  same : (addresses r.media.segments) ≡ (addresses r.media.segments ++ [])
  same = sym (append-nil (addresses r.media.segments))

  with_init-ReadsLine :
      (attrs resolved identity : Bytes) (range : Option ByteRange)
      → WhenOk (ReadsLine resolve r (map_tag attrs)) (with_init r resolved identity range)
  with_init-ReadsLine attrs resolved identity range =
      if_both (WhenOk (ReadsLine resolve r (map_tag attrs))) (check_map_key r.current_key)
        (ok (
          track (record r {
            media = record (add_segment (init_section r resolved range) r.media) { is_fmp4 = true };
            map_identity = identity;
          })))
        (err map_without_iv)
        (record {
          addresses_eq = addresses-append r.media.segments (init_section r resolved range);
          sequence_eq = refl;
          live_eq = &&-true r.media.live;
          discontinuity_eq = ||-false r.media.has_discontinuity;
          fmp4_eq = ||-true r.media.is_fmp4;
        })
        tt

  read_map-ReadsLine :
      (attrs : Bytes)
      → WhenOk (ReadsLine resolve r (map_tag attrs)) (read_map resolve r (parse_attributes attrs))
  unfolding read_map
  read_map-ReadsLine line =
      let attrs = parse_attributes line in
      let uri = unquote (attribute (codes "URI") attrs) in
      let text = attribute (codes "BYTERANGE") attrs in
      let resolved = resolve uri in
      let again : Result MediaReader =
        ok (record r { media = record r.media { is_fmp4 = true } }) in
      let first : Result MediaReader =
        map_range text >>= with_init r resolved (resolved ++ 0 ∷ text) in
      let same_map = eq_bytes r.map_identity (resolved ++ 0 ∷ text) in
      let P = WhenOk (ReadsLine resolve r (map_tag line)) in
      if_both P (is_empty uri) (err map_without_uri) (enter_map r resolved text) tt (
        if_both P (is_empty r.map_identity) first (if same_map then again else err changing_map)
          (WhenOk->>=-any (ReadsLine resolve r (map_tag line)) (map_range text)
            (with_init r resolved (resolved ++ 0 ∷ text))
            (with_init-ReadsLine line resolved (resolved ++ 0 ∷ text)))
          (if_both P same_map again (err changing_map)
            (record {
              addresses_eq = same;
              sequence_eq = refl;
              live_eq = &&-true r.media.live;
              discontinuity_eq = ||-false r.media.has_discontinuity;
              fmp4_eq = ||-true r.media.is_fmp4;
            })
            tt))

  with_byterange-ReadsLine :
      (line value : Bytes) (o : Option ByteRange)
      → WhenOk (ReadsLine resolve r (byterange_tag line value)) (with_byterange r line o)
  with_byterange-ReadsLine line value none = tt
  with_byterange-ReadsLine line value (some b) =
      quiet (byterange_tag line value) _ refl refl refl (refl, refl) (refl, refl) (refl, refl)

  pub read_line-ReadsLine :
      (line : Line) → WhenOk (ReadsLine resolve r line) (read_line resolve r line)
  unfolding read_line read_byterange read_segment
  read_line-ReadsLine (uri_line line) = record {
    addresses_eq = addresses-append r.media.segments _;
    sequence_eq = refl;
    live_eq = &&-true r.media.live;
    discontinuity_eq = ||-false r.media.has_discontinuity;
    fmp4_eq = ||-false r.media.is_fmp4;
  }
  read_line-ReadsLine (key_tag attrs) =
      WhenOk->>=-any (ReadsLine resolve r (key_tag attrs)) (parse_key resolve attrs)
        (λ key. ok (track (record r { current_key = key })))
        (λ key. quiet (key_tag attrs) _ refl refl refl (refl, refl) (refl, refl) (refl, refl))
  read_line-ReadsLine (map_tag attrs) = read_map-ReadsLine attrs
  read_line-ReadsLine (byterange_tag line value) =
      with_byterange-ReadsLine line value (parse_byte_range value r.last_range_end)
  read_line-ReadsLine gap_tag =
      quiet gap_tag _ refl refl refl (refl, refl) (refl, refl) (refl, refl)
  read_line-ReadsLine discontinuity_tag = record {
    addresses_eq = same;
    sequence_eq = refl;
    live_eq = &&-true r.media.live;
    discontinuity_eq = ||-true r.media.has_discontinuity;
    fmp4_eq = ||-false r.media.is_fmp4;
  }
  read_line-ReadsLine endlist_tag = record {
    addresses_eq = same;
    sequence_eq = refl;
    live_eq = ground arith;
    discontinuity_eq = ||-false r.media.has_discontinuity;
    fmp4_eq = ||-false r.media.is_fmp4;
  }
  read_line-ReadsLine (sequence_tag value) =
      quiet (sequence_tag value) _ refl refl refl (refl, refl) (refl, refl) (refl, refl)
  read_line-ReadsLine (version_tag value) =
      quiet (version_tag value) _ refl refl refl (refl, refl) (refl, refl) (refl, refl)
  read_line-ReadsLine other_tag =
      quiet other_tag _ refl refl refl (refl, refl) (refl, refl) (refl, refl)
