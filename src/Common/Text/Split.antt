-- ===== src/Common/Text/Split.antt =====
-- Cutting and splitting a text that is written in parts.
use Prim.Native.Nat.{ℕ}
use mathlib.Core.Path.{◌≡◌, refl}
use mathlib.Core.Bool.{Bool, true, false, not, ◌&&◌}
use mathlib.Core.Option.{some}
use mathlib.Core.List.{[], ◌∷◌, ◌++◌}
use native.Mathlib.Omega.{arith}
use pony_downloader.Common.Tests.{◌==◌}
use pony_downloader.Common.Text.{Bytes, cut, split_by, strip_prefix}

-- no byte passes the test
abbrev pub lacks : (ℕ → Bool) → Bytes → Bool
lacks test [] = true
lacks test (c ∷ s) = not (test c) && lacks test s

pub lacks_parts :
    (test : ℕ → Bool) (c : ℕ) (s : Bytes)
    → lacks test (c ∷ s) ≡ true
    → (test c ≡ false) × (lacks test s ≡ true)
lacks_parts test c s h = ground (arith, h)

pub cut-append :
    (sep : ℕ) (p rest : Bytes)
    → lacks (λ c. c == sep) p ≡ true
    → cut sep (p ++ sep ∷ rest) ≡ some (p, rest)
cut-append sep [] rest h = ground arith
cut-append sep (c ∷ p) rest h =
    let (here, more) = lacks_parts (λ d. d == sep) c p h in
    rw (here, cut-append sep p rest more) refl

pub strip_prefix-append : (p rest : Bytes) → strip_prefix p (p ++ rest) ≡ some rest
strip_prefix-append [] rest = refl
strip_prefix-append (c ∷ p) rest = ground (arith, strip_prefix-append p rest)

pub split_by-append :
    (test : ℕ → Bool) (p : Bytes) (c : ℕ) (rest : Bytes)
    → lacks test p ≡ true
    → test c ≡ true
    → split_by test (p ++ c ∷ rest) ≡ p ∷ split_by test rest
split_by-append test [] c rest h t = rw t refl
split_by-append test (d ∷ p) c rest h t =
    let (here, more) = lacks_parts test d p h in
    rw (here, split_by-append test p c rest more t) refl

pub split_by-lacks : (test : ℕ → Bool) (p : Bytes) → lacks test p ≡ true → split_by test p ≡ p ∷ []
split_by-lacks test [] h = refl
split_by-lacks test (d ∷ p) h =
    let (here, more) = lacks_parts test d p h in rw (here, split_by-lacks test p more) refl

pub lacks-append :
    (test : ℕ → Bool) (p s : Bytes)
    → lacks test p ≡ true
    → lacks test s ≡ true
    → lacks test (p ++ s) ≡ true
lacks-append test [] s hp hs = hs
lacks-append test (c ∷ p) s hp hs =
    let (here, more) = lacks_parts test c p hp in rw (here, lacks-append test p s more hs) refl

-- What fails a weaker test fails a stronger one.
pub lacks-weaken :
    (test test' : ℕ → Bool) (s : Bytes)
    → ((c : ℕ) → test c ≡ false → test' c ≡ false)
    → lacks test s ≡ true
    → lacks test' s ≡ true
lacks-weaken test test' [] w h = refl
lacks-weaken test test' (c ∷ s) w h =
    let (here, more) = lacks_parts test c s h in
    rw (w c here, lacks-weaken test test' s w more) refl
