-- ===== src/Common/Text.antt =====
-- Text as the list of its bytes, and what the sources call of Go's `strings` and `strconv`. White
-- space and letters are those of ASCII.
pub mod Split
pub mod Decimal
use Prim.Native.Nat.{ℕ, zero, suc, ◌+◌, ◌-◌, ◌*◌, ◌/◌, ◌%◌, ◌^◌}
use Prim.Native.Char.{code}
use Prim.Native.String.{String}
use mathlib.Core.Bool.{Bool, true, false, not, ◌&&◌, ◌||◌}
use mathlib.Core.Option.{Option, none, some}
use mathlib.Core.List.{List, [], ◌∷◌, ◌++◌}
use pony_downloader.Common.Tests.{ltb, leb, ◌==◌, if◌then◌else◌}
use pony_downloader.Common.Int.{ℤ, pos, negsuc, sub_ℕ}

abbrev pub Bytes : Type 0
Bytes = List ℕ

-- the bytes of a text of ASCII characters
abbrev pub codes : String → Bytes
codes String.[] = []
codes (String.◌∷◌ c s) = code c ∷ codes s

abbrev pub is_empty : Bytes → Bool
is_empty [] = true
is_empty (c ∷ s) = false

abbrev pub eq_bytes : Bytes → Bytes → Bool
eq_bytes [] [] = true
eq_bytes [] (d ∷ t) = false
eq_bytes (c ∷ s) [] = false
eq_bytes (c ∷ s) (d ∷ t) = c == d && eq_bytes s t

-- `strings.HasPrefix`, and what follows the prefix
abbrev pub strip_prefix : Bytes → Bytes → Option Bytes
strip_prefix [] s = some s
strip_prefix (p ∷ ps) [] = none
strip_prefix (p ∷ ps) (c ∷ s) = let rest = strip_prefix ps s in if p == c then rest else none

abbrev pub has_prefix : Bytes → Bytes → Bool
has_prefix p s = elim (strip_prefix p s) [ none ↦ false | some rest ↦ true ]

-- `strings.Contains`
abbrev pub contains : Bytes → Bytes → Bool
contains p [] = is_empty p
contains p (c ∷ s) = has_prefix p (c ∷ s) || contains p s

abbrev pub is_space : ℕ → Bool
is_space c = c == b' ' || leb 9 c && leb c 13

abbrev pub trim_left : Bytes → Bytes
trim_left [] = []
trim_left (c ∷ s) = let rest = trim_left s in if is_space c then rest else c ∷ s

abbrev pub trim_right : Bytes → Bytes
trim_right [] = []
trim_right (c ∷ s) = let rest = trim_right s in if is_empty rest && is_space c then [] else c ∷ rest

-- `strings.TrimSpace`
abbrev pub trim_space : Bytes → Bytes
trim_space s = trim_right (trim_left s)

abbrev pub to_upper_byte : ℕ → ℕ
to_upper_byte c = if leb b'a' c && leb c b'z' then c - 32 else c

abbrev pub to_lower_byte : ℕ → ℕ
to_lower_byte c = if leb b'A' c && leb c b'Z' then c + 32 else c

-- `strings.ToUpper` and `strings.ToLower`
abbrev pub to_upper : Bytes → Bytes
to_upper [] = []
to_upper (c ∷ s) = to_upper_byte c ∷ to_upper s

abbrev pub to_lower : Bytes → Bytes
to_lower [] = []
to_lower (c ∷ s) = to_lower_byte c ∷ to_lower s

-- `strings.EqualFold`
abbrev pub equal_fold : Bytes → Bytes → Bool
equal_fold s t = eq_bytes (to_lower s) (to_lower t)

-- `strings.Cut`: what stands before and behind the first separator
abbrev pub cut : ℕ → Bytes → Option (Bytes × Bytes)
cut sep [] = none
cut sep (c ∷ s) =
    let rest = cut sep s in
    if c == sep
    then some ([], s)
    else (elim rest [ none ↦ none | some (before, after) ↦ some (c ∷ before, after) ])

abbrev pub onto_head : ℕ → List Bytes → List Bytes
onto_head c [] = (c ∷ []) ∷ []
onto_head c (p ∷ ps) = (c ∷ p) ∷ ps

-- `strings.Split` at the bytes that pass the test
abbrev pub split_by : (ℕ → Bool) → Bytes → List Bytes
split_by test [] = [] ∷ []
split_by test (c ∷ s) = let rest = split_by test s in if test c then [] ∷ rest else onto_head c rest

abbrev pub split : ℕ → Bytes → List Bytes
split sep = split_by (λ c. c == sep)

abbrev pub drop_empty : List Bytes → List Bytes
drop_empty [] = []
drop_empty (p ∷ ps) = let rest = drop_empty ps in if is_empty p then rest else p ∷ rest

-- `strings.Fields`
abbrev pub fields : Bytes → List Bytes
fields s = drop_empty (split_by is_space s)

abbrev pub is_digit : ℕ → Bool
is_digit c = leb b'0' c && leb c b'9'

-- What `strconv.ParseInt` finds: a number, no number, or one that does not fit, with the bound that
-- it returns for it.
pub data ParsedInt : Type 0 where
  parsed : ℤ → ParsedInt
  syntax_error : ParsedInt
  range_error : ℤ → ParsedInt

pub data Scanned : Type 0 where
  scanned : ℕ → Scanned
  bad_syntax out_of_range : Scanned

-- the loop of `strconv.ParseUint` in base 10, in 64 bits
unfoldable pub scan : Bytes → ℕ → Scanned
scan [] n = scanned n
scan (c ∷ s) n =
    let m = n * 10 + (c - b'0') in
    let rest = scan s m in
    if is_digit c then (if ltb m (2 ^ 64) then rest else out_of_range) else bad_syntax

unfoldable pub parse_uint : Bytes → Scanned
unfolding scan
parse_uint [] = bad_syntax
parse_uint (c ∷ s) = scan (c ∷ s) 0

unfoldable pub signed : Bool → Scanned → ParsedInt
signed minus (scanned n) =
    if minus
    then (if leb n (2 ^ 63) then parsed (sub_ℕ 0 n) else range_error (sub_ℕ 0 (2 ^ 63)))
    else (if ltb n (2 ^ 63) then parsed (pos n) else range_error (pos (2 ^ 63 - 1)))
signed minus bad_syntax = syntax_error
signed minus out_of_range = range_error (if minus then sub_ℕ 0 (2 ^ 63) else pos (2 ^ 63 - 1))

-- `strconv.ParseInt(s, 10, 64)`
unfoldable pub parse_int : Bytes → ParsedInt
unfolding scan parse_uint signed
parse_int [] = syntax_error
parse_int (c ∷ s) =
    if c == b'+'
    then signed false (parse_uint s)
    else if c == b'-'
    then signed true (parse_uint s)
    else signed false (parse_uint (c ∷ s))

-- the value that `ParseInt` returns beside its error
abbrev pub int_value : ParsedInt → ℤ
int_value (parsed n) = n
int_value syntax_error = pos 0
int_value (range_error n) = n

-- the digits of a number that has at most `fuel` of them
unfoldable pub digits : ℕ → ℕ → Bytes → Bytes
digits zero n out = out
digits (suc fuel) n out =
    let rest = digits fuel (n / 10) ((b'0' + n % 10) ∷ out) in if n == 0 then out else rest

-- `%d` of a number from 0 to 2^63 - 1; it has at most 19 digits
unfoldable pub format_int : ℕ → Bytes
format_int n = if n == 0 then b'0' ∷ [] else digits 19 n []

-- `%d` of an int64
abbrev pub format_ℤ : ℤ → Bytes
format_ℤ (pos n) = format_int n
format_ℤ (negsuc n) = b'-' ∷ format_int (n + 1)

-- what a caller keeps that takes any error of `ParseInt` for a refusal
abbrev pub number : Bytes → Option ℤ
number s = elim (parse_int s) [ parsed n ↦ some n | syntax_error ↦ none | range_error n ↦ none ]
