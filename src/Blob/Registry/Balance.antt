-- ===== src/Blob/Registry/Balance.antt =====
-- The sessions that a list of sources holds, and how one change of a source moves them.
use pony_downloader.Common.{
  ℕ, zero, suc, ◌+◌, ◌≤◌, ◌≡◌, refl, ap, Bool, false, List, [], ◌∷◌, some, ◌==◌, arith,
  if◌then◌else◌, count, remove_at, get_elem?,
}
use pony_downloader.Blob.Source.{Source}
use pony_downloader.Blob.Registry.{
  Registry, Unfinished, delete_then_release, release_then_delete, release_session, delete_only,
  close_source, put_source, has_session, delete_source, close_sources,
}

abbrev pub places : ℕ → List ℕ → ℕ
places a = count (λ b. a == b)

-- the source at a holds the session x
abbrev pub holds : (ℕ → Source) → ℕ → ℕ → Bool
holds store x a = has_session (store a).session x

pub count-put :
    (store : ℕ → Source) (x a : ℕ) (s : Source) (ts : List ℕ)
    → count (holds (put_source store a s) x) ts + (if holds store x a then places a ts else 0)
      ≡ count (holds store x) ts + (if has_session s.session x then places a ts else 0)
count-put store x a s [] = ground arith
count-put store x a s (b ∷ ts) = ground (arith, count-put store x a s ts, same)
  where
    same : a ≡ b → holds store x a ≡ holds store x b
    same e = ap (holds store x) e

pub count-delete_source :
    (p : ℕ → Bool) (a : ℕ) (ts : List ℕ)
    → count p (delete_source a ts) + (if p a then places a ts else 0) ≡ count p ts
count-delete_source p a [] = ground arith
count-delete_source p a (b ∷ ts) = ground (arith, count-delete_source p a ts, same)
  where
    same : a ≡ b → p a ≡ p b
    same e = ap p e

pub places-delete_source : (x a : ℕ) (ts : List ℕ) → places x (delete_source a ts) ≤ places x ts
places-delete_source x a [] = omega arith
places-delete_source x a (b ∷ ts) = ground (arith, places-delete_source x a ts)

pub places-deleted : (a : ℕ) (ts : List ℕ) → places a (delete_source a ts) ≡ 0
places-deleted a [] = refl
places-deleted a (b ∷ ts) = ground (arith, places-deleted a ts)

pub places-kept :
    (a b : ℕ) (ts : List ℕ) → (a == b) ≡ false → places b (delete_source a ts) ≡ places b ts
places-kept a b [] n = refl
places-kept a b (c ∷ ts) n = ground (arith, n, places-kept a b ts n)

-- the session that an unfinished call is to release
abbrev pub owes : ℕ → Unfinished → Bool
owes x (delete_then_release a session) = has_session session x
owes x (release_then_delete a session) = has_session session x
owes x (release_session session) = has_session session x
owes x u = false

-- the source that it is to delete
abbrev pub deletes : ℕ → Unfinished → Bool
deletes b (delete_then_release a session) = a == b
deletes b (release_then_delete a session) = a == b
deletes b (delete_only a) = a == b
deletes b u = false

-- the source that it is to close
abbrev pub closes : ℕ → Unfinished → Bool
closes b (close_source a) = a == b
closes b u = false

-- The sources, the unfinished calls and the readers hold the sessions that were retained and not yet
-- released.
abbrev pub IsBalanced : Registry → Type 0
IsBalanced r =
    (x : ℕ)
    → r.retained x
      ≡ r.released x
        + count (holds r.store x) r.created
        + count (owes x) r.unfinished
        + count (λ s. has_session s x) r.readers

module _ {ℓ} {A : Type ℓ} (p : A → Bool) where
  pub count-remove_at :
      (xs : List A) (k : ℕ) (x : A)
      → get_elem? xs k ≡ some x
      → count p (remove_at xs k) + (if p x then 1 else 0) ≡ count p xs
  count-remove_at [] k x h = absurd (cc)
  count-remove_at (y ∷ xs) zero x h =
      let same : y ≡ x = cc in omega (arith, ap {B = ℕ} (λ z. if p z then 1 else 0) same)
  count-remove_at (y ∷ xs) (suc k) x h = omega (arith, count-remove_at xs k x h)

pub count-close_sources :
    (b : ℕ) (ts : List ℕ) (us : List Unfinished)
    → count (closes b) (close_sources ts us) ≡ places b ts + count (closes b) us
count-close_sources b [] us = omega arith
count-close_sources b (a ∷ ts) us = ground (arith, count-close_sources b ts us)

pub count-close_sources_others :
    (p : Unfinished → Bool) (ts : List ℕ) (us : List Unfinished)
    → ((a : ℕ) → p (close_source a) ≡ false)
    → count p (close_sources ts us) ≡ count p us
count-close_sources_others p [] us h = refl
count-close_sources_others p (a ∷ ts) us h =
    ground (arith, h a, count-close_sources_others p ts us h)
