-- ===== src/Hls/Tests.antt =====
-- Tests of the playlists and the cryptography of HLS and the witnesses of its theorems.
use pony_downloader.Common.{
  ℕ, ℤ, pos, negsuc, ◌-◌, ◌^◌, ◌≤◌, ◌≡◌, refl, sym, ap, ◌∙◌, true, false, List, [], ◌∷◌, ◌++◌,
  Option, none, some, arith, length, map, ◌+ℤ◌, wrap,
}
use Prim.Native.String.{String}
use pony_downloader.Common.Text.{
  format_int, digits, Bytes, codes, scan, parse_uint, signed, parse_int,
}
use pony_downloader.Hls.Attributes.{ByteRange, read_byte, parse_attributes, parse_byte_range}
use pony_downloader.Hls.Attributes.RoundTrip.{Spelled, spell_list, parse_attributes-spell_list}
use pony_downloader.Hls.Playlist.Defs.{ok, lines_of, validate_m3u8_header}
use pony_downloader.Hls.Playlist.Master.{Variant, pick_best_variant}
use pony_downloader.Hls.Run.{
  Run, find_size, load_journal, save_journal, new_run, prepare_run, download_segment, supervise,
}
use pony_downloader.Hls.Run.Pending.{has}
use pony_downloader.Hls.Run.Merge.{IsStaged, Ends, download_all, earlier_runs, supervise_lem}
use pony_downloader.Hls.Run.Journal.{load_journal-save_journal}
use pony_downloader.Hls.Playlist.Master.Choice.{IsFirstBest, pick_best_variant_lem}
use pony_downloader.Hls.Playlist.Media.{
  Segment, Media, new_media_reader, classify, read_segment, read_map, read_byterange, read_line,
  parse_media, validate_supported,
}
use pony_downloader.Hls.Playlist.Media.Segments.{AllSegments, parse_media-AllSegments}
use pony_downloader.Hls.Playlist.Media.Order.{
  Follows, verdict, parse_media-Follows, validate_supported_lem,
}
use pony_downloader.Hls.Crypto.{all_equal, last_byte, pkcs7_unpad, sequence_iv, decrypt_aes128}
use pony_downloader.Hls.Crypto.Padding.{padded, pkcs7_unpad-padded, pkcs7_unpad_lem}
use pony_downloader.Hls.Crypto.Iv.{big_endian, sequence_iv_lem}

-- A padding of no bytes, and one whose bytes differ, are refused.
empty_padding : pkcs7_unpad (7 ∷ 0 ∷ []) 16 ≡ none
unfolding pkcs7_unpad
empty_padding = refl

mixed_padding : pkcs7_unpad (7 ∷ 1 ∷ 2 ∷ []) 16 ≡ none
unfolding pkcs7_unpad all_equal
mixed_padding = refl

-- A key of another length is refused.
short_key : decrypt_aes128 (λ key iv bytes. bytes) (1 ∷ []) [] [] ≡ none
unfolding decrypt_aes128
short_key = refl

pkcs7_unpad-padded_example : pkcs7_unpad (padded (9 ∷ 8 ∷ []) 2) 16 ≡ some (9 ∷ 8 ∷ [])
pkcs7_unpad-padded_example = pkcs7_unpad-padded (9 ∷ 8 ∷ []) 2 16 (omega arith) (omega arith)

pkcs7_unpad_lem_example :
    (1 ≤ last_byte (9 ∷ 1 ∷ []))
    × ((last_byte (9 ∷ 1 ∷ []) ≤ 16) × ((9 ∷ 1 ∷ []) ≡ padded (9 ∷ []) (last_byte (9 ∷ 1 ∷ []))))
unfolding pkcs7_unpad all_equal
pkcs7_unpad_lem_example = pkcs7_unpad_lem (9 ∷ 1 ∷ []) 16 (9 ∷ []) refl

sequence_iv_lem_example : (length (sequence_iv 258) ≡ 16) × (big_endian 0 (sequence_iv 258) ≡ 258)
sequence_iv_lem_example = sequence_iv_lem 258 (omega arith)

abbrev text_of : List String → Bytes
text_of [] = []
text_of (line ∷ lines) = codes line ++ 10 ∷ text_of lines

-- NAME="value" and name=value
abbrev quoted_value : Spelled
quoted_value = record { name = codes "CODECS"; value = codes "a,b"; quoted = true }

abbrev plain_value : Spelled
plain_value = record { name = codes " bandwidth"; value = codes "42"; quoted = false }

parse_attributes-spell_list_example :
    parse_attributes (spell_list quoted_value (plain_value ∷ []))
    ≡ (codes "BANDWIDTH", codes "42") ∷ (codes "CODECS", codes "a,b") ∷ []
parse_attributes-spell_list_example =
    parse_attributes-spell_list quoted_value (plain_value ∷ []) refl

abbrev variant : ℕ → Variant
variant n = record {
  uri = codes "v";
  bandwidth = pos n;
  avg_bandwidth = pos 0;
  resolution = [];
  codecs = [];
  name = [];
  audio_group = [];
}

pick_best_variant_lem_example :
    (b : Variant) × (pick_best_variant (variant 3 ∷ variant 8 ∷ variant 8 ∷ []) ≡ some b)
    × IsFirstBest b (variant 3 ∷ variant 8 ∷ variant 8 ∷ [])
pick_best_variant_lem_example = pick_best_variant_lem (variant 3) (variant 8 ∷ variant 8 ∷ [])

-- The default offset of a byte range wraps, and is not checked.
negative_offset :
    read_byterange
      (record new_media_reader { last_range_end = wrap (pos (2 ^ 63 - 1) +ℤ pos 1) })
      []
      (codes "5")
    ≡ ok (record new_media_reader {
      pending_byterange = some (record { range_length = pos 5; offset = negsuc (2 ^ 63 - 1) });
      last_range_end = negsuc (2 ^ 63 - 6);
    })
unfolding read_byterange parse_byte_range scan parse_uint signed parse_int wrap ◌+ℤ◌
negative_offset = refl

-- A playlist with an init section, a byte range and an end.
abbrev sample : Bytes
sample = text_of (
    "#EXTM3U" ∷ "#EXT-X-MEDIA-SEQUENCE:7" ∷ "#EXT-X-MAP:URI=init" ∷ "#EXT-X-BYTERANGE:10@5" ∷ "a.ts"
    ∷ "#EXT-X-BYTERANGE:20" ∷ "a.ts" ∷ "#EXT-X-ENDLIST" ∷ [])

abbrev sample_segment : String → ℤ → Option ByteRange → ℤ → Segment
sample_segment uri sequence range size = record {
  uri = codes uri;
  sequence = sequence;
  byterange = range;
  key = none;
  is_init = false;
  is_gap = false;
  size = size;
}

abbrev sample_media : Media
sample_media = record {
  segments =
      record (sample_segment "init" (pos 7) none (pos 0)) { is_init = true }
      ∷ sample_segment "a.ts" (pos 7) (some (record { range_length = pos 10; offset = pos 5 }))
          (pos 10)
      ∷ sample_segment "a.ts" (pos 8) (some (record { range_length = pos 20; offset = pos 15 }))
          (pos 20)
      ∷ [];
  version = pos 0;
  live = false;
  is_fmp4 = true;
  has_discontinuity = false;
}

sample_parsed : parse_media (λ s. s) sample ≡ ok sample_media
unfolding parse_media read_line classify lines_of validate_m3u8_header read_segment read_map
    read_byterange parse_attributes read_byte parse_byte_range scan parse_uint signed parse_int wrap
    ◌+ℤ◌
sample_parsed = refl

parse_media-AllSegments_example : AllSegments sample_media.segments
parse_media-AllSegments_example = parse_media-AllSegments (λ s. s) sample sample_parsed

parse_media-Follows_example : Follows (λ s. s) (map classify (lines_of sample)) sample_media
parse_media-Follows_example = parse_media-Follows (λ s. s) sample sample_parsed

validate_supported_lem_example :
    validate_supported sample_media ≡ verdict (map classify (lines_of sample))
validate_supported_lem_example = validate_supported_lem (λ s. s) sample sample_parsed

-- A plan of three segments, of which an earlier run has downloaded the second.
abbrev fresh_run : Run
fresh_run = record {
  count = 3;
  staging_id = codes "s";
  plan_hash = codes "p";
  journal = [];
  files = λ i. none;
  journal_file = none;
  downloaded = pos 0;
  done_count = 0;
  fail_count = 0;
  base_bytes = pos 0;
  base_done = 0;
  pending = [];
  output = none;
}

abbrev content_of : ℕ → Bytes
content_of i = i ∷ 7 ∷ []

fresh-IsStaged : IsStaged content_of fresh_run
fresh-IsStaged = record { staged = λ i bytes h. absurd (cc) }

resumed_pending :
    (prepare_run (new_run (earlier_runs content_of ((1 ∷ []) ∷ []) fresh_run))).pending ≡ 0 ∷ 2 ∷ []
unfolding prepare_run download_segment parse_int parse_uint scan signed format_int digits ◌+ℤ◌
resumed_pending = refl

waits-or : (i : ℕ) → has i (0 ∷ 2 ∷ []) ≡ true → has i (2 ∷ 0 ∷ []) ≡ true
waits-or i h = ground (arith, h)

supervise_lem_example : Ends false (0 ∷ 7 ∷ 1 ∷ 7 ∷ 2 ∷ 7 ∷ []) (
    supervise false false (
      download_all content_of
        (2 ∷ 0 ∷ [])
        (prepare_run (new_run (earlier_runs content_of ((1 ∷ []) ∷ []) fresh_run)))))
supervise_lem_example =
    supervise_lem content_of fresh_run ((1 ∷ []) ∷ []) (2 ∷ 0 ∷ []) false fresh-IsStaged
      (λ i h. waits-or i (ap (has i) (sym resumed_pending) ∙ h))

load_journal-save_journal_example :
    find_size 2
      (load_journal (
        new_run
          (save_journal (record fresh_run { journal = (2, pos 9) ∷ (1, pos 0) ∷ [] })))).journal
    ≡ some (pos 9)
load_journal-save_journal_example =
    load_journal-save_journal (record fresh_run { journal = (2, pos 9) ∷ (1, pos 0) ∷ [] }) 2
      (omega arith) (omega arith, (omega arith, tt))
