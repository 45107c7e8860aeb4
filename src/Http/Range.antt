-- ===== src/Http/Range.antt =====
-- Ranges of bytes in HTTP messages: the request that internal/protocol/http/helper.go writes, and
-- the check of the response in internal/protocol/http/fetcher.go.
pub mod Validation
use pony_downloader.Common.{
  ℕ, ℤ, pos, ◌+ℤ◌, ◌-ℤ◌, ltb_ℤ, leb_ℤ, eq_ℤ, Bool, true, false, not, ◌&&◌, ◌||◌, List, [], ◌∷◌,
  ◌++◌, Option, none, some, leb, ltb, ◌==◌, if◌then◌else◌, length, get_or,
}
use pony_downloader.Common.Text.{
  Bytes, codes, format_ℤ, fields, split, equal_fold, number, is_empty, trim_space,
}

-- `formatRangeHeader`
abbrev pub format_range_header : ℤ → Option ℤ → Bytes
format_range_header start none = codes "bytes=" ++ (format_ℤ start ++ b'-' ∷ [])
format_range_header start (some end) = codes "bytes=" ++ (format_ℤ start ++ b'-' ∷ format_ℤ end)

-- the three numbers of a Content-Range
pub record ContentRange : Type 0 where
  pub start : ℤ
  pub end : ℤ
  pub total : ℤ

abbrev pub read_numbers : Option ℤ → Option ℤ → Option ℤ → Option ContentRange
read_numbers (some s) (some e) (some t) =
    if ltb_ℤ s (pos 0) || ltb_ℤ e s || leb_ℤ t e
    then none
    else some (record { start = s; end = e; total = t })
read_numbers s e t = none

abbrev pub read_bounds : Bytes → List Bytes → Option ContentRange
read_bounds total (first ∷ last ∷ []) = read_numbers (number first) (number last) (number total)
read_bounds total parts = none

abbrev pub read_range_and_total : List Bytes → Option ContentRange
read_range_and_total (range ∷ total ∷ []) = read_bounds total (split b'-' range)
read_range_and_total parts = none

abbrev pub read_fields : List Bytes → Option ContentRange
read_fields (unit ∷ value ∷ []) =
    if equal_fold unit (codes "bytes") then read_range_and_total (split b'/' value) else none
read_fields parts = none

abbrev pub end_matches : Option ℤ → ContentRange → Bool
end_matches none r = eq_ℤ r.end (r.total -ℤ pos 1)
end_matches (some end) r = eq_ℤ r.end end

abbrev pub range_length : ContentRange → ℤ
range_length r = r.end -ℤ r.start +ℤ pos 1

-- the checks of a well-formed Content-Range against the request, the resource and Content-Length
abbrev pub accepts : ℤ → Option ℤ → ℤ → ℤ → ContentRange → Bool
accepts start end total_size content_length r =
    (eq_ℤ r.start start && end_matches end r)
    && (not (ltb_ℤ (pos 0) total_size && not (eq_ℤ r.total total_size))
        && not (leb_ℤ (pos 0) content_length && not (eq_ℤ content_length (range_length r))))

-- `validateRangeResponse`: the length of the range and the total; every error is
-- errInvalidRangeResponse
unfoldable pub validate_range_response : Bytes → ℤ → ℤ → Option ℤ → ℤ → Option (ℤ × ℤ)
validate_range_response content_range content_length start end total_size =
    elim (read_fields (fields content_range)) [
      | none ↦ none
      | some r ↦
          if accepts start end total_size content_length r
          then some (range_length r, r.total)
          else none
    ]

-- the loop of `isStrongETag` over what stands between the quotes
abbrev pub all_etag_bytes : Bytes → Bool
all_etag_bytes [] = true
all_etag_bytes (b ∷ bs) = (b == 33 || leb 35 b && leb b 126 || leb 128 b) && all_etag_bytes bs

-- the bytes before the last one, which is to be a quote
abbrev pub quoted : Bytes → Option Bytes
quoted [] = none
quoted (b ∷ bs) =
    let rest = quoted bs in
    if is_empty bs
    then (if b == b'"' then some [] else none)
    else (elim rest [ none ↦ none | some inner ↦ some (b ∷ inner) ])

-- `isStrongETag`
unfoldable pub is_strong_etag : Bytes → Bool
is_strong_etag [] = false
is_strong_etag (b ∷ bs) =
    b == b'"' && (elim (quoted bs) [ none ↦ false | some inner ↦ all_etag_bytes inner ])

-- `extractIfRangeValidator`, from the headers ETag, Last-Modified and Date. `parse_time` is
-- `http.ParseTime` in seconds.
unfoldable pub extract_if_range_validator : (Bytes → Option ℤ) → Bytes → Bytes → Bytes → Bytes
extract_if_range_validator parse_time etag_header last_modified_header date_header =
    let etag = trim_space etag_header in
    let last_modified = trim_space last_modified_header in
    let date = trim_space date_header in
    if not (is_empty etag)
    then (if is_strong_etag etag then etag else [])
    else if is_empty last_modified || is_empty date
    then []
    else elim (parse_time last_modified) [
      | none ↦ []
      | some modified_at ↦ elim (parse_time date) [
        | none ↦ []
        | some response_at ↦
            if ltb_ℤ (response_at -ℤ modified_at) (pos 1) then [] else last_modified
      ]
    ]
