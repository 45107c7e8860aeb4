-- ===== src/Blob/Registry/Sections.antt =====
-- The critical sections of the registry, and the invariant.
use pony_downloader.Common.{
  ℕ, ◌+◌, ◌≤◌, ◌≡◌, refl, sym, ap, Bool, true, false, ◌&&◌, Option, none, ◌==◌, arith,
  if◌then◌else◌, Bool-cases, Option-cases, if_cases, ◌⊎◌, inl, inr, count, get_elem?, ℤ, pos, leb_ℤ,
}
use pony_downloader.Blob.Source.{
  Source, SourceError, new_source, acquire_task, release_task, close, expire_unclaimed,
  acquire_open, start_timer,
}
use pony_downloader.Blob.Registry.{
  Registry, delete_then_release, release_then_delete, has_session, create_opener, start_unclaimed,
  acquire, release, revoke_source, expire, serve, finish_reader, close_all,
}
use pony_downloader.Blob.Registry.Balance.{
  places, count-put, owes, deletes, closes, count-remove_at, count-close_sources,
  count-close_sources_others,
}
use pony_downloader.Blob.Registry.Sessions.{
  IsSound, put_cases, Keeps, keep-IsSound, Takes, take-IsSound, deletes_first, releases_first,
}

-- What the methods of a source do to it.
acquire_task-Keeps : (s : Source) → Keeps s (acquire_task s).0
unfolding acquire_task
acquire_task-Keeps s = record {
  revoked_eq = ground arith;
  session_eq = ground arith;
  opens_eq = ground arith;
}

start_timer-Keeps : (s : Source) → Keeps s (start_timer s)
start_timer-Keeps s = record {
  revoked_eq = ground arith;
  session_eq = ground arith;
  opens_eq = ground arith;
}

pub close-Takes : (s : Source) → Takes s (close s).0 (close s).1
unfolding close
close-Takes s = record {
  revoked_eq = refl;
  emptied = refl;
  taken = λ h.
      if_cases (λ (o : Option ℕ). o ≡ s.session) s.revoked none s.session (λ e. sym (h e))
        (λ _. refl);
}

release_task-cases :
    (s : Source)
    → (((release_task s).1.1.0 ≡ true) × Takes s (release_task s).0 (release_task s).1.0)
      ⊎ (((release_task s).1.1.0 ≡ false) × Keeps s (release_task s).0)
unfolding release_task
release_task-cases s = elim (Bool-cases (release_task s).1.1.0) [
  | inl e ↦ inl (
    e,
    record {
      revoked_eq = ground (arith, e);
      emptied = ground (arith, e);
      taken = λ _. ground (arith, e);
    },
  )
  | inr e ↦ inr (
    e,
    record {
      revoked_eq = ground (arith, e);
      session_eq = ground (arith, e);
      opens_eq = ground (arith, e);
    },
  )
]

expire_unclaimed-cases :
    (s : Source)
    → (((expire_unclaimed s).1.1 ≡ true) × Takes s (expire_unclaimed s).0 (expire_unclaimed s).1.0)
      ⊎ (((expire_unclaimed s).1.1 ≡ false) × Keeps s (expire_unclaimed s).0)
unfolding expire_unclaimed
expire_unclaimed-cases s = elim (Bool-cases (expire_unclaimed s).1.1) [
  | inl e ↦ inl (
    e,
    record {
      revoked_eq = ground (arith, e);
      emptied = ground (arith, e);
      taken = λ _. ground (arith, e);
    },
  )
  | inr e ↦ inr (
    e,
    record {
      revoked_eq = ground (arith, e);
      session_eq = ground (arith, e);
      opens_eq = ground (arith, e);
    },
  )
]

pub create_opener-IsSound :
    (a : ℕ) (session : Option ℕ) (range : Bool) (size : ℤ) (r : Registry)
    → places a r.created ≡ 0
    → IsSound r
    → IsSound (create_opener a session range size r).0
unfolding create_opener
create_opener-IsSound a session range size r new i =
    if_cases (λ (p : Registry × Option SourceError). IsSound p.0) (range && leb_ℤ size (pos 0)) _ _
      (λ _. i)
      (λ _. record {
        once = λ b. ground (arith, i.once b, new, same b);
        alive = λ b c.
            put_cases
              (λ (x : Source).
                x.revoked ≡ false
                → 1
                  ≤ (if b == a then 1 else 0) + places b r.sources + count (closes b) r.unfinished)
              r.store a b (new_source session) (λ e _. ground (arith, e))
              (λ n h. omega (arith, i.alive b (ground (arith, c, n)) h));
        opened = λ b c.
            put_cases (λ (x : Source). x.revoked ≡ false → x.opens ≡ true) r.store a b
              (new_source session) (λ _ _. refl) (λ n. i.opened b (ground (arith, c, n)));
        gone = λ b h.
            put_cases (λ (x : Source). x.revoked ≡ true) r.store a b (new_source session)
              (λ e.
                absurd (
                  omega (arith, new, i.known b (omega (arith, h)), ap (λ y. places y r.created) e)))
              (λ _. i.gone b h);
        spent = λ b c.
            put_cases (λ (x : Source). x.revoked ≡ true → x.session ≡ none) r.store a b
              (new_source session) (λ _ h. absurd (cc)) (λ n. i.spent b (ground (arith, c, n)));
        known = λ b h. elim (Bool-cases (b == a)) [
          | inl e ↦ ground (arith, e)
          | inr n ↦ omega (arith, i.known b (ground (arith, h, n)))
        ];
        balanced = λ x.
            ground (arith, i.balanced x, count-put r.store x a (new_source session) r.created, new);
      })
  where
    same : (b : ℕ) → (b ≡ a) → places b r.created ≡ places a r.created
    same b e = ap (λ c. places c r.created) e

pub start_unclaimed-IsSound : (a : ℕ) (r : Registry) → IsSound r → IsSound (start_unclaimed a r)
unfolding start_unclaimed
start_unclaimed-IsSound a r i =
    keep-IsSound a (start_timer (r.store a)) r (start_timer-Keeps (r.store a)) i

pub acquire-IsSound : (a : ℕ) (r : Registry) → IsSound r → IsSound (acquire a r).0
unfolding acquire
acquire-IsSound a r i =
    keep-IsSound a (acquire_task (r.store a)).0 r (acquire_task-Keeps (r.store a)) i

pub revoke_source-IsSound :
    (a : ℕ) (r : Registry) → 1 ≤ places a r.created → IsSound r → IsSound (revoke_source a r)
unfolding revoke_source
revoke_source-IsSound a r c i =
    take-IsSound a (close (r.store a)).0 (close (r.store a)).1
      (release_then_delete a (close (r.store a)).1) r c (close-Takes (r.store a))
      (releases_first a _) i

pub release-IsSound :
    (a : ℕ) (r : Registry) → 1 ≤ places a r.created → IsSound r → IsSound (release a r).0
unfolding release
release-IsSound a r c i =
    let s = (release_task (r.store a)).0 in
    let session = (release_task (r.store a)).1.0 in
    elim (release_task-cases (r.store a)) [
      | inl (e, t) ↦
          rw (e, release)
            (take-IsSound a s session (delete_then_release a session) r c t
              (deletes_first a session) i)
      | inr (e, k) ↦ rw (e, release) (keep-IsSound a s r k i)
    ]

pub expire-IsSound :
    (a : ℕ) (r : Registry) → 1 ≤ places a r.created → IsSound r → IsSound (expire a r)
unfolding expire
expire-IsSound a r c i =
    let s = (expire_unclaimed (r.store a)).0 in
    let session = (expire_unclaimed (r.store a)).1.0 in
    elim (expire_unclaimed-cases (r.store a)) [
      | inl (e, t) ↦
          rw (e, expire)
            (take-IsSound a s session (delete_then_release a session) r c t
              (deletes_first a session) i)
      | inr (e, k) ↦ rw (e, expire) (keep-IsSound a s r k i)
    ]

-- Only a source with an opener gives a response its session.
acquire_open-cases :
    (s : Source)
    → (s.revoked ≡ false → s.opens ≡ true)
    → ((acquire_open s).1 ≡ true) ⊎ (((acquire_open s).1 ≡ false) × ((acquire_open s).0 ≡ none))
unfolding acquire_open
acquire_open-cases s o = elim (Bool-cases s.revoked) [
  | inl e ↦ inr (rw e refl, rw e refl)
  | inr e ↦ inl (rw (e, o e) refl)
]

pub serve-IsSound :
    (a : ℕ) (r : Registry) → 1 ≤ places a r.created → IsSound r → IsSound (serve a r).0
unfolding serve
serve-IsSound a r c i = elim (acquire_open-cases (r.store a) (i.opened a c)) [
  | inl e ↦
      rw (e, serve)
        (record {
          once = i.once;
          alive = i.alive;
          opened = i.opened;
          gone = i.gone;
          spent = i.spent;
          known = i.known;
          balanced = λ x. omega (arith, i.balanced x);
        })
  | inr (e, n) ↦
      rw (e, n, serve)
        (record {
          once = i.once;
          alive = i.alive;
          opened = i.opened;
          gone = i.gone;
          spent = i.spent;
          known = i.known;
          balanced = λ x. omega (arith, i.balanced x);
        })
]

pub finish_reader-IsSound : (k : ℕ) (r : Registry) → IsSound r → IsSound (finish_reader k r)
unfolding finish_reader
finish_reader-IsSound k r i = elim (Option-cases (get_elem? r.readers k)) [
  | inl h ↦ rw (h, finish_reader) i
  | inr h ↦
      rw (h.1, finish_reader)
        (record {
          once = i.once;
          alive = i.alive;
          opened = i.opened;
          gone = i.gone;
          spent = i.spent;
          known = i.known;
          balanced = λ x.
              omega
                (arith, i.balanced x, count-remove_at (λ s. has_session s x) r.readers k h.0 h.1);
        })
]

pub close_all-IsSound : (r : Registry) → IsSound r → IsSound (close_all r)
unfolding close_all
close_all-IsSound r i = record {
  once = i.once;
  alive = λ a c h. omega (arith, i.alive a c h, count-close_sources a r.sources r.unfinished);
  opened = i.opened;
  gone = λ a h.
      i.gone a (
        omega
          (arith, h, count-close_sources_others (deletes a) r.sources r.unfinished (λ _. refl)));
  spent = i.spent;
  known = λ a h. i.known a (
      omega (
        arith,
        h,
        count-close_sources a r.sources r.unfinished,
        count-close_sources_others (deletes a) r.sources r.unfinished (λ _. refl),
      ));
  balanced = λ x.
      omega (
        arith,
        i.balanced x,
        count-close_sources_others (owes x) r.sources r.unfinished (λ _. refl),
      );
}
