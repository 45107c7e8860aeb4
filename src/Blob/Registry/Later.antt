-- ===== src/Blob/Registry/Later.antt =====
-- Two registries of which one comes later: the sources that are still there and still revoked.
use pony_downloader.Common.{
  ℕ, ◌≤◌, ◌≡◌, refl, sym, subst, ap, ◌∙◌, Bool, true, List, Option, arith, Option-cases, if_cases,
  inl, inr, ℤ, remove_at, get_elem?, leb_ℤ, pos, ◌&&◌,
}
use pony_downloader.Blob.Source.{
  Source, SourceError, new_source, acquire_task, release_task, close, expire_unclaimed, start_timer,
  acquire_open,
}
use pony_downloader.Blob.Registry.{
  Registry, Unfinished, delete_then_release, release_then_delete, release_session, delete_only,
  close_source, put_source, create_opener, release, expire, serve, finish_reader, carry_on,
  continue_call,
}
use pony_downloader.Blob.Registry.Balance.{places}
use pony_downloader.Blob.Registry.Sessions.{put_cases}

-- A source that is revoked stays so, and no task claims or releases it any more.
pub record StaysRevoked (s s' : Source) : Type 0 where
  pub revoked_eq : s.revoked ≡ true → s'.revoked ≡ true
  pub refs_eq : s.revoked ≡ true → s'.task_refs ≡ s.task_refs

-- Later the sources that there were are still there.
pub record IsLater (r t : Registry) : Type 0 where
  pub there : (a : ℕ) → places a r.created ≤ places a t.created
  pub stays : (a : ℕ) → 1 ≤ places a r.created → StaysRevoked (r.store a) (t.store a)

StaysRevoked-refl : (s : Source) → StaysRevoked s s
StaysRevoked-refl s = record { revoked_eq = λ e. e; refs_eq = λ e. refl }

pub IsLater-refl : (r : Registry) → IsLater r r
IsLater-refl r = record { there = λ a. omega arith; stays = λ a c. StaysRevoked-refl (r.store a) }

pub IsLater-trans : (r t u : Registry) → IsLater r t → IsLater t u → IsLater r u
IsLater-trans r t u p q = record {
  there = λ a. omega (arith, p.there a, q.there a);
  stays = λ a c.
      let now = p.stays a c in
      let then_on = q.stays a (omega (arith, c, p.there a)) in
      record {
        revoked_eq = λ e. then_on.revoked_eq (now.revoked_eq e);
        refs_eq = λ e. then_on.refs_eq (now.revoked_eq e) ∙ now.refs_eq e;
      };
}

put-StaysRevoked :
    (store : ℕ → Source) (a b : ℕ) (s : Source)
    → StaysRevoked (store a) s
    → StaysRevoked (store b) (put_source store a s b)
put-StaysRevoked store a b s h =
    put_cases (StaysRevoked (store b)) store a b s (λ e. subst (λ y. StaysRevoked (store y) s) e h)
      (λ _. StaysRevoked-refl (store b))

pub record MethodsStay (s : Source) : Type 0 where
  pub by_acquire : StaysRevoked s (acquire_task s).0
  pub by_release : StaysRevoked s (release_task s).0
  pub by_close : StaysRevoked s (close s).0
  pub by_expiry : StaysRevoked s (expire_unclaimed s).0
  pub by_timer : StaysRevoked s (start_timer s)

pub methods-MethodsStay : (s : Source) → MethodsStay s
unfolding acquire_task release_task close expire_unclaimed
methods-MethodsStay s = record {
  by_acquire = record { revoked_eq = λ e. ground (arith, e); refs_eq = λ e. ground (arith, e) };
  by_release = record { revoked_eq = λ e. ground (arith, e); refs_eq = λ e. ground (arith, e) };
  by_close = record { revoked_eq = λ e. ground (arith, e); refs_eq = λ e. ground (arith, e) };
  by_expiry = record { revoked_eq = λ e. ground (arith, e); refs_eq = λ e. ground (arith, e) };
  by_timer = record { revoked_eq = λ e. ground (arith, e); refs_eq = λ e. ground (arith, e) };
}

pub same_store-IsLater :
    (r t : Registry)
    → ((a : ℕ) → places a r.created ≤ places a t.created)
    → ((a : ℕ) → t.store a ≡ r.store a)
    → IsLater r t
same_store-IsLater r t c e = record {
  there = c;
  stays = λ a _. subst (StaysRevoked (r.store a)) (sym (e a)) (StaysRevoked-refl (r.store a));
}

-- The source at a has changed, and the created ones are the same.
pub put-IsLater :
    (r : Registry) (a : ℕ) (s : Source) (us : List Unfinished)
    → StaysRevoked (r.store a) s
    → IsLater r (record r { store = put_source r.store a s; unfinished = us })
put-IsLater r a s us h = record {
  there = λ b. omega arith;
  stays = λ b _. put-StaysRevoked r.store a b s h;
}

pub create_opener-IsLater :
    (a : ℕ) (session : Option ℕ) (range : Bool) (size : ℤ) (r : Registry)
    → places a r.created ≡ 0
    → IsLater r (create_opener a session range size r).0
unfolding create_opener
create_opener-IsLater a session range size r new =
    if_cases (λ (p : Registry × Option SourceError). IsLater r p.0) (range && leb_ℤ size (pos 0)) _
      _ (λ _. IsLater-refl r)
      (λ _. record {
        there = λ b. omega arith;
        stays = λ b c.
            put_cases (StaysRevoked (r.store b)) r.store a b (new_source session)
              (λ e. absurd (omega (arith, new, c, ap (λ y. places y r.created) e)))
              (λ _. StaysRevoked-refl (r.store b));
      })

pub release-IsLater : (a : ℕ) (r : Registry) → IsLater r (release a r).0
unfolding release
release-IsLater a r =
    let s = (release_task (r.store a)).0 in
    let h = (methods-MethodsStay (r.store a)).by_release in
    if_cases (λ (p : Registry × Option SourceError). IsLater r p.0) (release_task (r.store a)).1.1.0
      _ _ (λ _. put-IsLater r a s _ h) (λ _. put-IsLater r a s r.unfinished h)

pub expire-IsLater : (a : ℕ) (r : Registry) → IsLater r (expire a r)
unfolding expire
expire-IsLater a r =
    let s = (expire_unclaimed (r.store a)).0 in
    let h = (methods-MethodsStay (r.store a)).by_expiry in
    if_cases (IsLater r) (expire_unclaimed (r.store a)).1.1 _ _ (λ _. put-IsLater r a s _ h)
      (λ _. put-IsLater r a s r.unfinished h)

pub serve-IsLater : (a : ℕ) (r : Registry) → IsLater r (serve a r).0
unfolding serve
serve-IsLater a r =
    if_cases (λ (p : Registry × Bool). IsLater r p.0) (acquire_open (r.store a)).1 _ _
      (λ _. same_store-IsLater r _ (λ b. omega arith) (λ b. refl))
      (λ _. same_store-IsLater r _ (λ b. omega arith) (λ b. refl))

pub finish_reader-IsLater : (k : ℕ) (r : Registry) → IsLater r (finish_reader k r)
unfolding finish_reader
finish_reader-IsLater k r = elim (Option-cases (get_elem? r.readers k)) [
  | inl h ↦ rw (h, finish_reader) (IsLater-refl r)
  | inr h ↦ rw (h.1, finish_reader) (same_store-IsLater r _ (λ b. omega arith) (λ b. refl))
]

carry_on-IsLater :
    (u : Unfinished) (us : List Unfinished) (r : Registry)
    → IsLater r (carry_on u (record r { unfinished = us }))
carry_on-IsLater (delete_then_release a session) us r =
    same_store-IsLater r _ (λ b. omega arith) (λ b. refl)
carry_on-IsLater (release_then_delete a session) us r =
    same_store-IsLater r _ (λ b. omega arith) (λ b. refl)
carry_on-IsLater (release_session session) us r =
    same_store-IsLater r _ (λ b. omega arith) (λ b. refl)
carry_on-IsLater (delete_only a) us r = same_store-IsLater r _ (λ b. omega arith) (λ b. refl)
carry_on-IsLater (close_source a) us r =
    put-IsLater r a (close (r.store a)).0 _ (methods-MethodsStay (r.store a)).by_close

pub continue_call-IsLater : (k : ℕ) (r : Registry) → IsLater r (continue_call k r)
unfolding continue_call
continue_call-IsLater k r = elim (Option-cases (get_elem? r.unfinished k)) [
  | inl h ↦ rw (h, continue_call) (IsLater-refl r)
  | inr (u, h) ↦ rw (h, continue_call) (carry_on-IsLater u (remove_at r.unfinished k) r)
]
