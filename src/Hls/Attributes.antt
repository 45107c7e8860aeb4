-- ===== src/Hls/Attributes.antt =====
-- internal/protocol/hls/playlist.go: attribute lists, byte ranges and the small readers of values. A
-- map from names to values is a list in which the first entry of a name counts.
pub mod RoundTrip
use pony_downloader.Common.{
  ℕ, ℤ, pos, negsuc, ltb_ℤ, leb_ℤ, Bool, true, false, not, ◌&&◌, ◌||◌, List, [], ◌∷◌, ◌++◌, Option,
  none, some, ◌==◌, if◌then◌else◌,
}
use pony_downloader.Common.Text.{
  Bytes, codes, eq_bytes, is_empty, trim_space, to_upper, parse_int, int_value, cut,
}

abbrev pub Attributes : Type 0
Attributes = List (Bytes × Bytes)

-- `attrs[name]` with its `ok`
abbrev pub find_attribute : Bytes → Attributes → Option Bytes
find_attribute name [] = none
find_attribute name ((key, value) ∷ attrs) =
    let rest = find_attribute name attrs in if eq_bytes key name then some value else rest

-- `attrs[name]`, which is empty for a missing name
abbrev pub attribute : Bytes → Attributes → Bytes
attribute name attrs = elim (find_attribute name attrs) [ none ↦ [] | some value ↦ value ]

-- the variables of `parseAttributes`
pub record AttributeReader : Type 0 where
  pub key : Bytes
  pub value : Bytes
  pub in_key : Bool
  pub in_quote : Bool
  pub attrs : Attributes

-- `flush`
abbrev pub flush : AttributeReader → AttributeReader
flush r =
    let name = to_upper (trim_space r.key) in
    record {
      key = [];
      value = [];
      in_key = true;
      in_quote = r.in_quote;
      attrs = if is_empty name then r.attrs else (name, trim_space r.value) ∷ r.attrs;
    }

-- one round of the loop of `parseAttributes`
unfoldable pub read_byte : AttributeReader → ℕ → AttributeReader
read_byte r c =
    if r.in_key
    then (if c == b'=' then record r { in_key = false } else record r { key = r.key ++ c ∷ [] })
    else if c == b'"'
    then record r { in_quote = not r.in_quote }
    else if c == b',' && not r.in_quote
    then flush r
    else record r { value = r.value ++ c ∷ [] }

abbrev pub read_bytes : AttributeReader → Bytes → AttributeReader
read_bytes r [] = r
read_bytes r (c ∷ s) = read_bytes (read_byte r c) s

abbrev pub new_reader : AttributeReader
new_reader = record { key = []; value = []; in_key = true; in_quote = false; attrs = [] }

-- `parseAttributes`
unfoldable pub parse_attributes : Bytes → Attributes
parse_attributes s = (flush (read_bytes new_reader s)).attrs

-- the text without a quote at its end, if it ends in one
abbrev pub drop_last_quote : Bytes → Option Bytes
drop_last_quote [] = none
drop_last_quote (c ∷ s) =
    let rest = drop_last_quote s in
    if is_empty s
    then (if c == b'"' then some [] else none)
    else (elim rest [ none ↦ none | some inner ↦ some (c ∷ inner) ])

abbrev pub unquote_trimmed : Bytes → Bytes
unquote_trimmed [] = []
unquote_trimmed (c ∷ s) =
    if c == b'"' then (elim (drop_last_quote s) [ none ↦ c ∷ s | some inner ↦ inner ]) else c ∷ s

-- `unquote`
abbrev pub unquote : Bytes → Bytes
unquote s = unquote_trimmed (trim_space s)

-- `parseInt64`, which drops the error of `ParseInt` and keeps its value
abbrev pub parse_int64 : Bytes → ℤ
parse_int64 s = int_value (parse_int (trim_space s))

pub record ByteRange : Type 0 where
  pub range_length : ℤ
  pub offset : ℤ

abbrev pub with_offset : ℤ → ℤ → Bytes → Option ByteRange
with_offset range_length default_offset offset_part =
    if is_empty offset_part
    then some (record { range_length = range_length; offset = default_offset })
    else if ltb_ℤ (parse_int64 offset_part) (pos 0)
    then none
    else some (record { range_length = range_length; offset = parse_int64 offset_part })

abbrev pub sized : ℤ → ℤ → Bytes → Option ByteRange
sized range_length default_offset offset_part =
    if leb_ℤ range_length (pos 0) then none else with_offset range_length default_offset offset_part

-- `parseByteRange`
unfoldable pub parse_byte_range : Bytes → ℤ → Option ByteRange
parse_byte_range value default_offset = elim (cut b'@' value) [
  | none ↦ sized (parse_int64 value) default_offset []
  | some (length_part, offset_part) ↦ sized (parse_int64 length_part) default_offset offset_part
]
