-- ===== src/Blob/Source/References.antt =====
-- The references of the tasks to one source.
use pony_downloader.Common.{
  ℕ, zero, suc, ◌+◌, ◌-◌, ◌≤◌, ◌<◌, ◌≡◌, refl, ap, ◌∙◌, Bool, true, false, List, [], ◌∷◌, Option,
  none, some, ltb, arith, Bool-cases, inl, inr,
}
use pony_downloader.Blob.Source.{
  Source, SourceError, source_revoked, new_source, acquire_task, release_task, revoke,
}

unfoldable pub acquire_times : ℕ → Source → Source
acquire_times zero s = s
acquire_times (suc n) s = acquire_times n (acquire_task s).0

-- what a release adds to the released sessions
abbrev pub with_session : Option ℕ → List ℕ → List ℕ
with_session none sessions = sessions
with_session (some x) sessions = x ∷ sessions

-- n releases, and the sessions that they release
unfoldable pub release_times : ℕ → Source → Source × List ℕ
release_times zero s = (s, [])
release_times (suc n) s =
    let (s', r) = release_task s in
    let (s'', sessions) = release_times n s' in (s'', with_session r.0 sessions)

acquire_once :
    (s : Source)
    → s.revoked ≡ false
    → ((acquire_task s).0.revoked ≡ false)
      × (((acquire_task s).0.task_refs ≡ s.task_refs + 1)
          × ((acquire_task s).0.session ≡ s.session))
unfolding acquire_task
acquire_once s h = rw (h, acquire_task) (refl, (refl, refl))

acquire_times_lem :
    (n : ℕ) (s : Source)
    → s.revoked ≡ false
    → ((acquire_times n s).revoked ≡ false)
      × (((acquire_times n s).task_refs ≡ n + s.task_refs)
          × ((acquire_times n s).session ≡ s.session))
unfolding acquire_times
acquire_times_lem zero s h = (h, (omega arith, refl))
acquire_times_lem (suc n) s h =
    let (v, (t, e)) = acquire_once s h in
    let (v', (t', e')) = acquire_times_lem n (acquire_task s).0 v in
    (v', (omega (arith, t, t'), e' ∙ e))

release_kept :
    (s : Source)
    → s.revoked ≡ false
    → 2 ≤ s.task_refs
    → release_task s ≡ (record s { task_refs = s.task_refs - 1 }, (none, (false, none)))
unfolding release_task
release_kept s h l = ground (arith, h, l)

release_last :
    (s : Source)
    → s.revoked ≡ false
    → s.task_refs ≡ 1
    → release_task s
      ≡ (revoke (record s { task_refs = s.task_refs - 1 }), (s.session, (true, none)))
unfolding release_task
release_last s h l = ground (arith, h, l)

release_revoked :
    (s : Source) → s.revoked ≡ true → release_task s ≡ (s, (none, (false, some source_revoked)))
unfolding release_task
release_revoked s h = ground (arith, h)

release_step :
    (k : ℕ) (s : Source) (r : Source × (Option ℕ × (Bool × Option SourceError)))
    → release_task s ≡ r
    → release_times (suc k) s
      ≡ ((release_times k r.0).0, with_session r.1.0 (release_times k r.0).1)
unfolding release_times
release_step k s r e =
    ap
      (λ (p : Source × (Option ℕ × (Bool × Option SourceError))).
        ((release_times k p.0).0, with_session p.1.0 (release_times k p.0).1))
      e

revoked_stays : (k : ℕ) (s : Source) → s.revoked ≡ true → release_times k s ≡ (s, [])
unfolding release_times
revoked_stays zero s h = refl
revoked_stays (suc k) s h = release_step k s _ (release_revoked s h) ∙ revoked_stays k s h

-- k releases of a source with `refs` references, at least one, and a session
record Releases (k refs session : ℕ) (r : Source × List ℕ) : Type 0 where
  early : k < refs → (r.0.revoked ≡ false) × (r.1 ≡ [])
  late : refs ≤ k → (r.0.revoked ≡ true) × (r.1 ≡ session ∷ [])

release_times-Releases :
    (k refs session : ℕ) (s : Source)
    → s.revoked ≡ false
    → s.task_refs ≡ refs
    → 1 ≤ refs
    → s.session ≡ some session
    → Releases k refs session (release_times k s)
unfolding release_times
release_times-Releases zero refs x s h t o e = record {
  early = λ _. (h, refl);
  late = λ l. absurd (omega (arith, l, o));
}
release_times-Releases (suc k) refs x s h t o e = elim (Bool-cases (ltb 1 refs)) [
  | inl more ↦
      let ih =
        release_times-Releases k (refs - 1) x (record s { task_refs = s.task_refs - 1 }) h
          (omega (arith, t)) (ground (arith, more)) e in
      rw (release_step k s _ (release_kept s h (ground (arith, more, t)))) (record {
        early = λ l. ih.early (ground (arith, l, more));
        late = λ l. ih.late (ground (arith, l, more));
      })
  | inr last ↦
      let gone = revoke (record s { task_refs = s.task_refs - 1 }) in
      rw
        (
          release_step k s _ (release_last s h (ground (arith, last, t, o))),
          revoked_stays k gone refl,
          e,
        )
        (record { early = λ l. absurd (ground (arith, l, last)); late = λ l. (refl, refl) })
]

-- A fresh source of a session that n tasks have acquired, at least one, stays open through the first
-- n - 1 releases, which release no session; the n-th revokes it and releases its session, once, and
-- further releases change nothing.
pub release_times_lem :
    (n k session : ℕ)
    → 1 ≤ n
    → (k < n
        → ((release_times k (acquire_times n (new_source (some session)))).0.revoked ≡ false)
          × ((release_times k (acquire_times n (new_source (some session)))).1 ≡ []))
      × (n ≤ k
          → ((release_times k (acquire_times n (new_source (some session)))).0.revoked ≡ true)
            × ((release_times k (acquire_times n (new_source (some session)))).1 ≡ session ∷ []))
release_times_lem n k x o =
    let (v, (t, e)) = acquire_times_lem n (new_source (some x)) refl in
    let r =
      release_times-Releases k n x (acquire_times n (new_source (some x))) v (omega (arith, t)) o
        e in
    (r.early, r.late)
