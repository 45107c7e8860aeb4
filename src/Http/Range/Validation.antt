-- ===== src/Http/Range/Validation.antt =====
-- What the validation of a range response accepts.
use pony_downloader.Common.{
  ℕ, ℤ, pos, ◌+ℤ◌, ◌-ℤ◌, +ℤ_parts, eq_of_parts, ltb_ℤ, leb_ℤ, eq_ℤ, ◌≤ℤ◌, Bool, true, false, not,
  ◌&&◌, ◌||◌, List, [], ◌∷◌, ◌++◌, Option, none, some, ◌==◌, if◌then◌else◌, if_cases, WhenSome,
  WhenSome-some, WhenSome-map, ◌≡◌, refl, ap, ◌∙◌, sym, arith, ◌≤◌, ◌<◌, ◌^◌, append_assoc,
}
use pony_downloader.Common.Text.{
  Bytes, codes, format_int, fields, split, is_space, drop_empty, equal_fold, number, is_empty,
}
use pony_downloader.Common.Text.Split.{lacks, split_by-append, split_by-lacks, lacks-append}
use pony_downloader.Common.Text.Decimal.{format_int-lacks, number-format_int}
use pony_downloader.Http.Range.{
  ContentRange, read_numbers, read_bounds, read_range_and_total, read_fields, end_matches,
  range_length, accepts, validate_range_response,
}

-- the text of a Content-Range behind its unit
abbrev pub spelled : ℕ → ℕ → ℕ → Bytes
spelled s e t = format_int s ++ b'-' ∷ (format_int e ++ b'/' ∷ format_int t)

spelled-lacks_space : (s e t : ℕ) → lacks is_space (spelled s e t) ≡ true
spelled-lacks_space s e t =
    lacks-append is_space (format_int s) _ (digit s)
      (lacks-append is_space (format_int e) _ (digit e) (digit t))
  where
    digit : (n : ℕ) → lacks is_space (format_int n) ≡ true
    digit n = format_int-lacks is_space n (λ c h. ground (arith, h))

not_empty : (p : Bytes) (c : ℕ) (rest : Bytes) → is_empty (p ++ c ∷ rest) ≡ false
not_empty [] c rest = refl
not_empty (d ∷ p) c rest = refl

fields-spelled :
    (s e t : ℕ) → fields (codes "bytes " ++ spelled s e t) ≡ codes "bytes" ∷ spelled s e t ∷ []
fields-spelled s e t =
    ap drop_empty (
      split_by-append is_space (codes "bytes") b' ' (spelled s e t) refl refl
      ∙ ap (λ ps. codes "bytes" ∷ ps)
          (split_by-lacks is_space (spelled s e t) (spelled-lacks_space s e t)))
    ∙ rw (not_empty (format_int s) b'-' (format_int e ++ b'/' ∷ format_int t)) refl

split_slash :
    (s e t : ℕ)
    → split b'/' (spelled s e t) ≡ (format_int s ++ b'-' ∷ format_int e) ∷ format_int t ∷ []
split_slash s e t =
    ap (split b'/') (sym (append_assoc (format_int s) (b'-' ∷ format_int e) (b'/' ∷ format_int t)))
    ∙ split_by-append (λ c. c == b'/') (format_int s ++ b'-' ∷ format_int e) b'/' (format_int t)
        (lacks-append (λ c. c == b'/') (format_int s) _ (digit s) (digit e)) refl
    ∙ ap (λ ps. (format_int s ++ b'-' ∷ format_int e) ∷ ps)
        (split_by-lacks (λ c. c == b'/') (format_int t) (digit t))
  where
    digit : (n : ℕ) → lacks (λ c. c == b'/') (format_int n) ≡ true
    digit n = format_int-lacks (λ c. c == b'/') n (λ c h. ground (arith, h))

split_dash :
    (s e : ℕ) → split b'-' (format_int s ++ b'-' ∷ format_int e) ≡ format_int s ∷ format_int e ∷ []
split_dash s e =
    split_by-append (λ c. c == b'-') (format_int s) b'-' (format_int e) (digit s) refl
    ∙ ap (λ ps. format_int s ∷ ps) (split_by-lacks (λ c. c == b'-') (format_int e) (digit e))
  where
    digit : (n : ℕ) → lacks (λ c. c == b'-') (format_int n) ≡ true
    digit n = format_int-lacks (λ c. c == b'-') n (λ c h. ground (arith, h))

abbrev pub range_of : ℕ → ℕ → ℕ → ContentRange
range_of s e t = record { start = pos s; end = pos e; total = pos t }

-- A Content-Range that spells a range inside a resource is read.
pub read_fields-spelled :
    (s e t : ℕ)
    → s ≤ e
    → e < t
    → t < 2 ^ 63
    → read_fields (fields (codes "bytes " ++ spelled s e t)) ≡ some (range_of s e t)
read_fields-spelled s e t se et tm =
    ap read_fields (fields-spelled s e t)
    ∙ ap read_range_and_total (split_slash s e t)
    ∙ ap (read_bounds (format_int t)) (split_dash s e)
    ∙ rw
        (
          number-format_int s (omega (arith, se, et, tm)),
          number-format_int e (omega (arith, et, tm)),
          number-format_int t tm,
        )
        (ground (arith, se, et))

-- The range starts at or behind the first byte, it has a byte, and it ends before the total.
pub record InOrder (r : ContentRange) : Type 0 where
  pub not_negative : pos 0 ≤ℤ r.start
  pub not_empty_range : r.start ≤ℤ r.end
  pub inside : r.end +ℤ pos 1 ≤ℤ r.total

read_numbers-InOrder : (a b c : Option ℤ) → WhenSome InOrder (read_numbers a b c)
read_numbers-InOrder (some s) (some e) (some t) =
    if_cases (WhenSome InOrder) (ltb_ℤ s (pos 0) || ltb_ℤ e s || leb_ℤ t e) _ _ (λ _. tt)
      (λ h. record {
        not_negative = ground (arith, h);
        not_empty_range = ground (arith, h);
        inside = ground (arith, h, +ℤ_parts e (pos 1));
      })
read_numbers-InOrder none b c = tt
read_numbers-InOrder (some s) none c = tt
read_numbers-InOrder (some s) (some e) none = tt

read_bounds-InOrder : (total : Bytes) (ps : List Bytes) → WhenSome InOrder (read_bounds total ps)
read_bounds-InOrder total [] = tt
read_bounds-InOrder total (a ∷ []) = tt
read_bounds-InOrder total (a ∷ b ∷ []) = read_numbers-InOrder (number a) (number b) (number total)
read_bounds-InOrder total (a ∷ b ∷ c ∷ ps) = tt

read_range_and_total-InOrder : (ps : List Bytes) → WhenSome InOrder (read_range_and_total ps)
read_range_and_total-InOrder [] = tt
read_range_and_total-InOrder (a ∷ []) = tt
read_range_and_total-InOrder (a ∷ b ∷ []) = read_bounds-InOrder b (split b'-' a)
read_range_and_total-InOrder (a ∷ b ∷ c ∷ ps) = tt

read_fields-InOrder : (ps : List Bytes) → WhenSome InOrder (read_fields ps)
read_fields-InOrder [] = tt
read_fields-InOrder (a ∷ []) = tt
read_fields-InOrder (a ∷ b ∷ []) =
    if_cases (WhenSome InOrder) (equal_fold a (codes "bytes")) _ _
      (λ _. read_range_and_total-InOrder (split b'/' b)) (λ _. tt)
read_fields-InOrder (a ∷ b ∷ c ∷ ps) = tt

-- The text of a Content-Range has a unit, which is "bytes" in any case, and behind it two bounds with a
-- dash between them and a total behind a slash, and the range r has these three numbers.
pub record IsReadFrom (content_range : Bytes) (r : ContentRange) : Type 0 where
  pub unit : Bytes
  pub value : Bytes
  pub bounds : Bytes
  pub first : Bytes
  pub last : Bytes
  pub size : Bytes
  pub fields_eq : fields content_range ≡ unit ∷ value ∷ []
  pub unit_eq : equal_fold unit (codes "bytes") ≡ true
  pub value_eq : split b'/' value ≡ bounds ∷ size ∷ []
  pub bounds_eq : split b'-' bounds ≡ first ∷ last ∷ []
  pub start_eq : number first ≡ some r.start
  pub end_eq : number last ≡ some r.end
  pub total_eq : number size ≡ some r.total

-- The three numbers that were read are those of the range.
record HasNumbers (a b c : Option ℤ) (r : ContentRange) : Type 0 where
  start_eq : a ≡ some r.start
  end_eq : b ≡ some r.end
  total_eq : c ≡ some r.total

read_numbers-HasNumbers : (a b c : Option ℤ) → WhenSome (HasNumbers a b c) (read_numbers a b c)
read_numbers-HasNumbers (some s) (some e) (some t) =
    if_cases (WhenSome (HasNumbers (some s) (some e) (some t)))
      (ltb_ℤ s (pos 0) || ltb_ℤ e s || leb_ℤ t e) _ _ (λ _. tt)
      (λ _. record { start_eq = refl; end_eq = refl; total_eq = refl })
read_numbers-HasNumbers none b c = tt
read_numbers-HasNumbers (some s) none c = tt
read_numbers-HasNumbers (some s) (some e) none = tt

module _ (cr unit value : Bytes) (f : fields cr ≡ unit ∷ value ∷ [])
    (u : equal_fold unit (codes "bytes") ≡ true) where
  read_bounds-IsReadFrom :
      (bounds total : Bytes) (ps : List Bytes)
      → split b'/' value ≡ bounds ∷ total ∷ []
      → split b'-' bounds ≡ ps
      → WhenSome (IsReadFrom cr) (read_bounds total ps)
  read_bounds-IsReadFrom bounds total [] v h = tt
  read_bounds-IsReadFrom bounds total (a ∷ []) v h = tt
  read_bounds-IsReadFrom bounds total (a ∷ b ∷ []) v h =
      WhenSome-map (HasNumbers (number a) (number b) (number total)) (IsReadFrom cr)
        (read_numbers (number a) (number b) (number total))
        (λ r n. record {
          unit = unit;
          value = value;
          bounds = bounds;
          first = a;
          last = b;
          size = total;
          fields_eq = f;
          unit_eq = u;
          value_eq = v;
          bounds_eq = h;
          start_eq = n.start_eq;
          end_eq = n.end_eq;
          total_eq = n.total_eq;
        })
        (read_numbers-HasNumbers (number a) (number b) (number total))
  read_bounds-IsReadFrom bounds total (a ∷ b ∷ c ∷ ps) v h = tt

  read_range_and_total-IsReadFrom :
      (ps : List Bytes) → split b'/' value ≡ ps → WhenSome (IsReadFrom cr) (read_range_and_total ps)
  read_range_and_total-IsReadFrom [] v = tt
  read_range_and_total-IsReadFrom (a ∷ []) v = tt
  read_range_and_total-IsReadFrom (a ∷ b ∷ []) v = read_bounds-IsReadFrom a b (split b'-' a) v refl
  read_range_and_total-IsReadFrom (a ∷ b ∷ c ∷ ps) v = tt

read_fields-IsReadFrom :
    (cr : Bytes) (ps : List Bytes) → fields cr ≡ ps → WhenSome (IsReadFrom cr) (read_fields ps)
read_fields-IsReadFrom cr [] f = tt
read_fields-IsReadFrom cr (a ∷ []) f = tt
read_fields-IsReadFrom cr (a ∷ b ∷ []) f =
    if_cases (WhenSome (IsReadFrom cr)) (equal_fold a (codes "bytes")) _ _
      (λ u. read_range_and_total-IsReadFrom cr a b f u (split b'/' b) refl) (λ _. tt)
read_fields-IsReadFrom cr (a ∷ b ∷ c ∷ ps) f = tt

-- The range r of a response is the one that was asked for, and all the lengths agree.
pub record Matches (start : ℤ) (end : Option ℤ) (total_size content_length : ℤ) (r : ContentRange)
    : Type 0 where
  pub in_order : InOrder r
  pub same_start : r.start ≡ start
  pub same_end : r.end ≡ (elim end [ none ↦ r.total -ℤ pos 1 | some e ↦ e ])
  pub same_total : pos 1 ≤ℤ total_size → r.total ≡ total_size
  pub same_length : pos 0 ≤ℤ content_length → content_length ≡ range_length r

eq_ℤ-true : (a b : ℤ) → eq_ℤ a b ≡ true → a ≡ b
eq_ℤ-true a b h = eq_of_parts a b (ground (arith, h))

accepts-Matches :
    (start : ℤ) (end : Option ℤ) (total_size content_length : ℤ) (r : ContentRange)
    → InOrder r
    → accepts start end total_size content_length r ≡ true
    → Matches start end total_size content_length r
accepts-Matches start end total_size content_length r i h =
    let ((s, e), (t, l)) =
      parts (eq_ℤ r.start start) (end_matches end r)
        (not (ltb_ℤ (pos 0) total_size && not (eq_ℤ r.total total_size)))
        (not (leb_ℤ (pos 0) content_length && not (eq_ℤ content_length (range_length r)))) h in
    record {
      in_order = i;
      same_start = eq_ℤ-true r.start start s;
      same_end = ends end e;
      same_total = λ p. eq_ℤ-true r.total total_size (ground (arith, t, p));
      same_length = λ p. eq_ℤ-true content_length (range_length r) (ground (arith, l, p));
    }
  where
    parts :
        (a b c d : Bool)
        → ((a && b) && (c && d)) ≡ true
        → ((a ≡ true) × (b ≡ true)) × ((c ≡ true) × (d ≡ true))
    parts a b c d h = ground (arith, h)

    ends :
        (end : Option ℤ)
        → end_matches end r ≡ true
        → r.end ≡ (elim end [ none ↦ r.total -ℤ pos 1 | some e ↦ e ])
    ends none h = eq_ℤ-true r.end _ h
    ends (some e) h = eq_ℤ-true r.end e h

-- What the validation returns: the length and the total of a range that matches.
pub record IsValidated (content_range : Bytes) (start : ℤ) (end : Option ℤ)
    (total_size content_length : ℤ) (p : ℤ × ℤ) : Type 0 where
  pub range : ContentRange
  pub read_from : IsReadFrom content_range range
  pub matches : Matches start end total_size content_length range
  pub its_length : p.0 ≡ range_length range
  pub its_total : p.1 ≡ range.total

-- A response that is accepted has a Content-Range of the unit "bytes" with two bounds and a total, which
-- are in order; it starts where the request does and ends where the request does or, if that has no end,
-- at the last byte; its total is the size of the resource if that is known; and its Content-Length, if
-- there is one, is the length of the range. The result is that length and that total.
pub validate_range_response_lem :
    (content_range : Bytes) (content_length start : ℤ) (end : Option ℤ) (total_size : ℤ) (p : ℤ × ℤ)
    → validate_range_response content_range content_length start end total_size ≡ some p
    → IsValidated content_range start end total_size content_length p
unfolding validate_range_response
validate_range_response_lem cr cl start end size p h =
    WhenSome-some (IsValidated cr start end size cl)
      (checked (read_fields (fields cr)) (read_fields-InOrder (fields cr))
        (read_fields-IsReadFrom cr (fields cr) refl))
      h
  where
    checked :
        (o : Option ContentRange)
        → WhenSome InOrder o
        → WhenSome (IsReadFrom cr) o
        → WhenSome (IsValidated cr start end size cl) (elim o [
          | none ↦ none
          | some r ↦ if accepts start end size cl r then some (range_length r, r.total) else none
        ])
    checked none i f = tt
    checked (some r) i f =
        if_cases (WhenSome (IsValidated cr start end size cl)) (accepts start end size cl r) _ _
          (λ a. record {
            range = r;
            read_from = f;
            matches = accepts-Matches start end size cl r i a;
            its_length = refl;
            its_total = refl;
          })
          (λ _. tt)
