-- ===== src/Hls/Attributes/RoundTrip.antt =====
-- Attribute lists, written out and read back.
use pony_downloader.Common.{
  ℕ, Bool, true, false, ◌&&◌, ◌||◌, List, [], ◌∷◌, ◌++◌, ◌==◌, if◌then◌else◌, ◌≡◌, refl, ap, ◌∙◌,
  arith, append_assoc, append-nil,
}
use pony_downloader.Common.Text.{Bytes, is_empty, trim_space, to_upper}
use pony_downloader.Common.Text.Split.{lacks, lacks_parts}
use pony_downloader.Hls.Attributes.{
  Attributes, AttributeReader, flush, read_byte, read_bytes, parse_attributes,
}

-- an attribute as a playlist spells it: `NAME="value"` or `NAME=value`
pub record Spelled : Type 0 where
  pub name : Bytes
  pub value : Bytes
  pub quoted : Bool

abbrev pub spell_value : Bool → Bytes → Bytes
spell_value true value = b'"' ∷ value ++ b'"' ∷ []
spell_value false value = value

abbrev pub spell : Spelled → Bytes
spell e = e.name ++ b'=' ∷ spell_value e.quoted e.value

-- the attributes with commas between them
abbrev pub spell_list : Spelled → List Spelled → Bytes
spell_list e [] = spell e
spell_list e (f ∷ es) = spell e ++ b',' ∷ spell_list f es

-- What a spelled attribute stores: the name in upper case, both without space around them, and
-- nothing for an empty name.
abbrev pub store : Spelled → Attributes → Attributes
store e attrs =
    let name = to_upper (trim_space e.name) in
    if is_empty name then attrs else (name, trim_space e.value) ∷ attrs

abbrev pub store_list : Spelled → List Spelled → Attributes → Attributes
store_list e [] attrs = store e attrs
store_list e (f ∷ es) attrs = store_list f es (store e attrs)

abbrev pub ends_value : ℕ → Bool
ends_value c = c == b'"' || c == b','

-- The name holds no `=`, a quoted value no quote, and another value neither quote nor comma.
abbrev pub is_clean : Spelled → Bool
is_clean e =
    lacks (λ c. c == b'=') e.name
    && (if e.quoted then lacks (λ c. c == b'"') e.value else lacks ends_value e.value)

abbrev pub all_clean : List Spelled → Bool
all_clean [] = true
all_clean (e ∷ es) = is_clean e && all_clean es

read_bytes-append :
    (r : AttributeReader) (s t : Bytes) → read_bytes r (s ++ t) ≡ read_bytes (read_bytes r s) t
read_bytes-append r [] t = refl
read_bytes-append r (c ∷ s) t = read_bytes-append (read_byte r c) s t

abbrev reader : Bytes → Bytes → Bool → Bool → Attributes → AttributeReader
reader k v in_key in_quote attrs = record {
  key = k;
  value = v;
  in_key = in_key;
  in_quote = in_quote;
  attrs = attrs;
}

-- a name without `=` is taken up as the key
read_name :
    (s k v : Bytes) (q : Bool) (a : Attributes)
    → lacks (λ c. c == b'=') s ≡ true
    → read_bytes (reader k v true q a) s ≡ reader (k ++ s) v true q a
unfolding read_byte
read_name [] k v q a h = rw (append-nil k) refl
read_name (c ∷ s) k v q a h =
    let (here, more) = lacks_parts (λ d. d == b'=') c s h in
    rw (here, read_name s (k ++ c ∷ []) v q a more, append_assoc k (c ∷ []) s) refl

module _ (k : Bytes) (a : Attributes) where
  quoted_step :
      (v : Bytes) (c : ℕ)
      → (c == b'"') ≡ false
      → read_byte (reader k v false true a) c ≡ reader k (v ++ c ∷ []) false true a
  unfolding read_byte
  quoted_step v c h = ground (arith, h)

  plain_step :
      (v : Bytes) (c : ℕ)
      → ends_value c ≡ false
      → read_byte (reader k v false false a) c ≡ reader k (v ++ c ∷ []) false false a
  unfolding read_byte
  plain_step v c h = ground (arith, h)

  read_quoted :
      (s v : Bytes)
      → lacks (λ c. c == b'"') s ≡ true
      → read_bytes (reader k v false true a) s ≡ reader k (v ++ s) false true a
  read_quoted [] v h = rw (append-nil v) refl
  read_quoted (c ∷ s) v h =
      let (here, more) = lacks_parts (λ d. d == b'"') c s h in
      rw (quoted_step v c here, read_quoted s (v ++ c ∷ []) more, append_assoc v (c ∷ []) s) refl

  read_plain :
      (s v : Bytes)
      → lacks ends_value s ≡ true
      → read_bytes (reader k v false false a) s ≡ reader k (v ++ s) false false a
  read_plain [] v h = rw (append-nil v) refl
  read_plain (c ∷ s) v h =
      let (here, more) = lacks_parts ends_value c s h in
      rw (plain_step v c here, read_plain s (v ++ c ∷ []) more, append_assoc v (c ∷ []) s) refl

  read_value :
      (quoted : Bool) (s : Bytes)
      → (if quoted then lacks (λ c. c == b'"') s else lacks ends_value s) ≡ true
      → read_bytes (reader k [] false false a) (spell_value quoted s) ≡ reader k s false false a
  unfolding read_byte
  read_value true s h =
      read_bytes-append (reader k [] false true a) s (b'"' ∷ [])
      ∙ ap (λ r. read_bytes r (b'"' ∷ [])) (read_quoted s [] h)
  read_value false s h = read_plain s [] h

read_spelled :
    (e : Spelled) (a : Attributes)
    → is_clean e ≡ true
    → read_bytes (reader [] [] true false a) (spell e) ≡ reader e.name e.value false false a
unfolding read_byte
read_spelled e a h =
    let (names, values) = both h in
    read_bytes-append (reader [] [] true false a) e.name (b'=' ∷ spell_value e.quoted e.value)
    ∙ ap (λ r. read_bytes r (b'=' ∷ spell_value e.quoted e.value))
        (read_name e.name [] [] false a names)
    ∙ read_value e.name a e.quoted e.value values
  where
    both : {x y : Bool} → (x && y) ≡ true → (x ≡ true) × (y ≡ true)
    both h = ground arith

read_comma :
    (e : Spelled) (a : Attributes)
    → read_byte (reader e.name e.value false false a) b',' ≡ reader [] [] true false (store e a)
unfolding read_byte
read_comma e a = refl

read_list :
    (e : Spelled) (es : List Spelled) (a : Attributes)
    → all_clean (e ∷ es) ≡ true
    → (flush (read_bytes (reader [] [] true false a) (spell_list e es))).attrs ≡ store_list e es a
read_list e [] a h = ap (λ r. (flush r).attrs) (read_spelled e a (ground (arith, h)))
read_list e (f ∷ es) a h =
    ap (λ r. (flush r).attrs)
      (read_bytes-append (reader [] [] true false a) (spell e) (b',' ∷ spell_list f es)
        ∙ ap (λ r. read_bytes r (b',' ∷ spell_list f es)) (read_spelled e a (ground (arith, h)))
        ∙ ap (λ r. read_bytes r (spell_list f es)) (read_comma e a))
    ∙ read_list f es (store e a) (ground (arith, h))

-- An attribute list whose names hold no `=`, whose quoted values hold no quote and whose other values
-- hold neither quote nor comma is read back: each name in upper case with its value, both without
-- space around them, the last entry of a name first; an entry with a blank name is left out.
pub parse_attributes-spell_list :
    (e : Spelled) (es : List Spelled)
    → all_clean (e ∷ es) ≡ true
    → parse_attributes (spell_list e es) ≡ store_list e es []
unfolding parse_attributes
parse_attributes-spell_list e es h = read_list e es [] h
