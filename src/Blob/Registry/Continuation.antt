-- ===== src/Blob/Registry/Continuation.antt =====
-- What a call of the registry has still to do, and the invariant.
use pony_downloader.Common.{
  ℕ, ◌+◌, ◌≤◌, ◌≡◌, refl, ap, true, false, List, ◌∷◌, Option, some, ◌==◌, arith, if◌then◌else◌,
  Bool-cases, Option-cases, inl, inr, count, remove_at, get_elem?,
}
use pony_downloader.Blob.Source.{Source, close}
use pony_downloader.Blob.Registry.{
  Registry, Unfinished, delete_then_release, release_then_delete, release_session, delete_only,
  close_source, put_source, has_session, call, delete_source, carry_on, continue_call,
}
use pony_downloader.Blob.Registry.Balance.{
  places, places-delete_source, places-kept, owes, deletes, closes, count-remove_at,
}
use pony_downloader.Blob.Registry.Sessions.{IsSound, put_cases, take-IsSound, only_releases}
use pony_downloader.Blob.Registry.Sections.{close-Takes}

-- The order of the unfinished calls does not matter.
front-IsSound :
    (k : ℕ) (u : Unfinished) (r : Registry)
    → get_elem? r.unfinished k ≡ some u
    → IsSound r
    → IsSound (record r { unfinished = u ∷ remove_at r.unfinished k })
front-IsSound k u r g i = record {
  once = i.once;
  alive = λ a c h. omega (arith, i.alive a c h, count-remove_at (closes a) r.unfinished k u g);
  opened = i.opened;
  gone = λ a h. i.gone a (omega (arith, h, count-remove_at (deletes a) r.unfinished k u g));
  spent = i.spent;
  known = λ a h. i.known a (
      omega (
        arith,
        h,
        count-remove_at (closes a) r.unfinished k u g,
        count-remove_at (deletes a) r.unfinished k u g,
      ));
  balanced = λ x. omega (arith, i.balanced x, count-remove_at (owes x) r.unfinished k u g);
}

-- An unfinished call is replaced by one that deletes and closes nothing more, after the release of what
-- it no longer owes.
release-IsSound_of :
    (session : Option ℕ) (u v : Unfinished) (us : List Unfinished) (r : Registry)
    → ((x : ℕ)
        → (if owes x u then 1 else 0)
          ≡ (if has_session session x then 1 else 0) + (if owes x v then 1 else 0))
    → ((b : ℕ) → closes b u ≡ closes b v)
    → ((b : ℕ) → deletes b u ≡ deletes b v)
    → IsSound (record r { unfinished = u ∷ us })
    → IsSound (record r { released = call session r.released; unfinished = v ∷ us })
release-IsSound_of session u v us r o c d i = record {
  once = i.once;
  alive = λ a h n. ground (arith, i.alive a h n, c a);
  opened = i.opened;
  gone = λ a h. i.gone a (ground (arith, h, d a));
  spent = i.spent;
  known = λ a h. i.known a (ground (arith, h, c a, d a));
  balanced = λ x. omega (arith, i.balanced x, o x);
}

drop_released-IsSound :
    (session : Option ℕ) (us : List Unfinished) (r : Registry)
    → IsSound (record r { unfinished = release_session session ∷ us })
    → IsSound (record r { released = call session r.released; unfinished = us })
drop_released-IsSound session us r i = record {
  once = i.once;
  alive = λ a h n. omega (arith, i.alive a h n);
  opened = i.opened;
  gone = λ a h. i.gone a (omega (arith, h));
  spent = i.spent;
  known = λ a h. i.known a (omega (arith, h));
  balanced = λ x. omega (arith, i.balanced x);
}

-- A source that is revoked leaves the map.
deleted-IsSound :
    (a : ℕ) (u : Unfinished) (vs us : List Unfinished) (r : Registry)
    → ((b : ℕ) → deletes b u ≡ (a == b))
    → ((b : ℕ) → closes b u ≡ false)
    → ((b : ℕ) → count (closes b) vs ≡ count (closes b) us)
    → ((b : ℕ) → count (deletes b) vs ≡ count (deletes b) us)
    → ((x : ℕ) → count (owes x) vs ≡ (if owes x u then 1 else 0) + count (owes x) us)
    → IsSound (record r { unfinished = u ∷ us })
    → IsSound (record r { sources = delete_source a r.sources; unfinished = vs })
deleted-IsSound a u vs us r d c sc sd so i = record {
  once = i.once;
  alive = λ b h n. elim (Bool-cases (a == b)) [
    | inl e ↦ absurd (ground (arith, n, i.gone b (ground (arith, d b, e))))
    | inr e ↦ ground (arith, i.alive b h n, c b, sc b, places-kept a b r.sources e)
  ];
  opened = i.opened;
  gone = λ b h. i.gone b (omega (arith, h, sd b));
  spent = i.spent;
  known = λ b h. i.known b (omega (arith, h, sc b, sd b, places-delete_source b a r.sources));
  balanced = λ x. omega (arith, i.balanced x, so x);
}

-- A source that has been closed need not be closed again.
closed-IsSound :
    (a : ℕ) (v : Unfinished) (us : List Unfinished) (r : Registry)
    → (r.store a).revoked ≡ true
    → IsSound (record r { unfinished = v ∷ close_source a ∷ us })
    → IsSound (record r { unfinished = v ∷ us })
closed-IsSound a v us r e i = record {
  once = i.once;
  alive = λ b h n. elim (Bool-cases (a == b)) [
    | inl q ↦
        let same : a ≡ b = ground (arith, q) in
        absurd (ground (arith, n, e, ap (λ y. (r.store y).revoked) same))
    | inr q ↦ ground (arith, i.alive b h n, q)
  ];
  opened = i.opened;
  gone = λ b h. i.gone b (omega (arith, h));
  spent = i.spent;
  known = λ b h. i.known b (omega (arith, h));
  balanced = λ x. omega (arith, i.balanced x);
}

carry_on-IsSound :
    (u : Unfinished) (us : List Unfinished) (r : Registry)
    → IsSound (record r { unfinished = u ∷ us })
    → IsSound (carry_on u (record r { unfinished = us }))
carry_on-IsSound (delete_then_release a session) us r i =
    deleted-IsSound a (delete_then_release a session) (release_session session ∷ us) us r
      (λ b. refl) (λ b. refl) (λ b. omega arith) (λ b. omega arith) (λ x. refl) i
carry_on-IsSound (release_then_delete a session) us r i =
    release-IsSound_of session (release_then_delete a session) (delete_only a) us r
      (λ x. omega arith) (λ b. refl) (λ b. refl) i
carry_on-IsSound (release_session session) us r i = drop_released-IsSound session us r i
carry_on-IsSound (delete_only a) us r i =
    deleted-IsSound a (delete_only a) us us r (λ b. refl) (λ b. refl) (λ b. refl) (λ b. refl)
      (λ x. omega arith) i
carry_on-IsSound (close_source a) us r i =
    let v = release_session (close (r.store a)).1 in
    let here : 1 ≤ places a r.created = i.known a (ground arith) in
    closed-IsSound a v us (record r { store = put_source r.store a (close (r.store a)).0 })
      (put_cases (λ (x : Source). x.revoked ≡ true) r.store a a (close (r.store a)).0
        (λ _. (close-Takes (r.store a)).revoked_eq) (λ n. absurd (ground (arith, n))))
      (take-IsSound a (close (r.store a)).0 (close (r.store a)).1 v
        (record r { unfinished = close_source a ∷ us }) here (close-Takes (r.store a))
        (only_releases a (close (r.store a)).1) i)

pub continue_call-IsSound : (k : ℕ) (r : Registry) → IsSound r → IsSound (continue_call k r)
unfolding continue_call
continue_call-IsSound k r i = elim (Option-cases (get_elem? r.unfinished k)) [
  | inl h ↦ rw (h, continue_call) i
  | inr (u, h) ↦
      rw (h, continue_call)
        (carry_on-IsSound u (remove_at r.unfinished k) r (front-IsSound k u r h i))
]
