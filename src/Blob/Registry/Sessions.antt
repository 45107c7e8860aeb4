-- ===== src/Blob/Registry/Sessions.antt =====
-- The invariant of the registry, and the changes of one source.
use pony_downloader.Common.{
  ℕ, ◌+◌, ◌≤◌, ◌≡◌, refl, sym, ap, ◌∙◌, true, false, Option, none, ◌==◌, arith, if◌then◌else◌,
  Bool-cases, if_cases, inl, inr, count,
}
use pony_downloader.Blob.Source.{Source}
use pony_downloader.Blob.Registry.{
  Registry, Unfinished, delete_then_release, release_then_delete, release_session, put_source,
  has_session, leave_unfinished,
}
use pony_downloader.Blob.Registry.Balance.{places, count-put, owes, deletes, closes, IsBalanced}

-- Each source is created once; one that is not revoked has its opener, and is in the map or about to be
-- closed; one that is about to be deleted is revoked; one that is revoked holds no session; the map and
-- the unfinished calls name created sources alone; and the sessions are balanced.
pub record IsSound (r : Registry) : Type 0 where
  pub once : (a : ℕ) → places a r.created ≤ 1
  pub alive :
      (a : ℕ)
      → 1 ≤ places a r.created
      → (r.store a).revoked ≡ false
      → 1 ≤ places a r.sources + count (closes a) r.unfinished
  pub opened :
      (a : ℕ) → 1 ≤ places a r.created → (r.store a).revoked ≡ false → (r.store a).opens ≡ true
  pub gone : (a : ℕ) → 1 ≤ count (deletes a) r.unfinished → (r.store a).revoked ≡ true
  pub spent :
      (a : ℕ) → 1 ≤ places a r.created → (r.store a).revoked ≡ true → (r.store a).session ≡ none
  pub known :
      (a : ℕ)
      → 1 ≤ places a r.sources + count (closes a) r.unfinished + count (deletes a) r.unfinished
      → 1 ≤ places a r.created
  pub balanced : IsBalanced r

-- A property of the sources after a change of one of them.
pub put_cases :
    (P : Source → Type 0) (store : ℕ → Source) (a b : ℕ) (s : Source)
    → (a ≡ b → P s)
    → ((a == b) ≡ false → P (store b))
    → P (put_source store a s b)
put_cases P store a b s h k = if_cases P (a == b) s (store b) (λ e. h (ground (arith, e))) k

-- A change of a source that keeps its session and its opener and does not revoke it.
pub record Keeps (s s' : Source) : Type 0 where
  pub revoked_eq : s'.revoked ≡ s.revoked
  pub session_eq : s'.session ≡ s.session
  pub opens_eq : s'.opens ≡ s.opens

pub keep-IsSound :
    (a : ℕ) (s : Source) (r : Registry)
    → Keeps (r.store a) s
    → IsSound r
    → IsSound (record r { store = put_source r.store a s })
keep-IsSound a s r k i = record {
  once = i.once;
  alive = λ b c.
      put_cases
        (λ (x : Source). x.revoked ≡ false → 1 ≤ places b r.sources + count (closes b) r.unfinished)
        r.store a b s
        (λ e h. i.alive b c (sym (ap (λ y. (r.store y).revoked) e) ∙ (sym k.revoked_eq ∙ h)))
        (λ _. i.alive b c);
  opened = λ b c.
      put_cases (λ (x : Source). x.revoked ≡ false → x.opens ≡ true) r.store a b s
        (λ e h.
          k.opens_eq
          ∙ ap (λ y. (r.store y).opens) e
          ∙ i.opened b c (sym (ap (λ y. (r.store y).revoked) e) ∙ (sym k.revoked_eq ∙ h)))
        (λ _. i.opened b c);
  gone = λ b h.
      put_cases (λ (x : Source). x.revoked ≡ true) r.store a b s
        (λ e. k.revoked_eq ∙ ap (λ y. (r.store y).revoked) e ∙ i.gone b h) (λ _. i.gone b h);
  spent = λ b c.
      put_cases (λ (x : Source). x.revoked ≡ true → x.session ≡ none) r.store a b s
        (λ e h.
          k.session_eq
          ∙ ap (λ y. (r.store y).session) e
          ∙ i.spent b c (sym (ap (λ y. (r.store y).revoked) e) ∙ (sym k.revoked_eq ∙ h)))
        (λ _. i.spent b c);
  known = i.known;
  balanced = λ x. omega (
    arith,
    i.balanced x,
    count-put r.store x a s r.created,
    ap {B = ℕ} (λ o. if has_session o x then places a r.created else 0) k.session_eq,
  );
}

-- A section that revokes a source, if it is not revoked yet, and takes its session.
pub record Takes (s s' : Source) (session : Option ℕ) : Type 0 where
  pub revoked_eq : s'.revoked ≡ true
  pub emptied : s'.session ≡ none
  pub taken : (s.revoked ≡ true → s.session ≡ none) → session ≡ s.session

-- What the call leaves to be done is to release that session, and to delete no other source.
pub record LeavesTo (a : ℕ) (session : Option ℕ) (u : Unfinished) : Type 0 where
  pub owes_eq : (x : ℕ) → owes x u ≡ has_session session x
  pub closes_none : (b : ℕ) → closes b u ≡ false
  pub deletes_own : (b : ℕ) → (a == b) ≡ false → deletes b u ≡ false

pub take-IsSound :
    (a : ℕ) (s : Source) (session : Option ℕ) (u : Unfinished) (r : Registry)
    → 1 ≤ places a r.created
    → Takes (r.store a) s session
    → LeavesTo a session u
    → IsSound r
    → IsSound (leave_unfinished a s u r)
take-IsSound a s session u r here t l i = record {
  once = i.once;
  alive = λ b c.
      put_cases
        (λ (x : Source).
          x.revoked ≡ false
          → 1
            ≤ places b r.sources + ((if closes b u then 1 else 0) + count (closes b) r.unfinished))
        r.store a b s (λ _ h. absurd (ground (arith, t.revoked_eq, h)))
        (λ _ h. omega (arith, i.alive b c h));
  opened = λ b c.
      put_cases (λ (x : Source). x.revoked ≡ false → x.opens ≡ true) r.store a b s
        (λ _ h. absurd (ground (arith, t.revoked_eq, h))) (λ _. i.opened b c);
  gone = λ b h.
      put_cases (λ (x : Source). x.revoked ≡ true) r.store a b s (λ _. t.revoked_eq)
        (λ n. i.gone b (ground (arith, h, l.deletes_own b n)));
  spent = λ b c.
      put_cases (λ (x : Source). x.revoked ≡ true → x.session ≡ none) r.store a b s
        (λ _ _. t.emptied) (λ _. i.spent b c);
  known = λ b h. elim (Bool-cases (a == b)) [
    | inl e ↦
        let same : a ≡ b = ground (arith, e) in
        omega (arith, here, ap (λ y. places y r.created) same)
    | inr n ↦ i.known b (ground (arith, h, l.deletes_own b n, l.closes_none b))
  ];
  balanced = λ x. ground (
    arith,
    i.balanced x,
    count-put r.store x a s r.created,
    here,
    i.once a,
    l.owes_eq x,
    ap (λ o. has_session o x) (t.taken (i.spent a here)),
    ap (λ o. has_session o x) t.emptied,
  );
}

pub deletes_first :
    (a : ℕ) (session : Option ℕ) → LeavesTo a session (delete_then_release a session)
deletes_first a session = record {
  owes_eq = λ x. refl;
  closes_none = λ b. refl;
  deletes_own = λ b n. n;
}

pub releases_first :
    (a : ℕ) (session : Option ℕ) → LeavesTo a session (release_then_delete a session)
releases_first a session = record {
  owes_eq = λ x. refl;
  closes_none = λ b. refl;
  deletes_own = λ b n. n;
}

pub only_releases : (a : ℕ) (session : Option ℕ) → LeavesTo a session (release_session session)
only_releases a session = record {
  owes_eq = λ x. refl;
  closes_none = λ b. refl;
  deletes_own = λ b n. refl;
}
