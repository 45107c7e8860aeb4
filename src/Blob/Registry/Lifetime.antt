-- ===== src/Blob/Registry/Lifetime.antt =====
-- The whole life of a registry: any sequence of its critical sections, and its end.
use pony_downloader.Common.{
  ℕ, ◌+◌, ◌≤◌, ◌≡◌, refl, ap, Bool, List, [], ◌∷◌, Option, none, arith, Bool-cases, inl, inr, count,
  ℤ,
}
use pony_downloader.Blob.Source.{Source, acquire_task, close, start_timer}
use pony_downloader.Blob.Registry.{
  Registry, has_session, create_opener, start_unclaimed, acquire, release, revoke_source, expire,
  serve, finish_reader, close_all, continue_call,
}
use pony_downloader.Blob.Registry.Balance.{places, holds, owes, closes}
use pony_downloader.Blob.Registry.Sessions.{IsSound}
use pony_downloader.Blob.Registry.Sections.{
  create_opener-IsSound, start_unclaimed-IsSound, acquire-IsSound, revoke_source-IsSound,
  release-IsSound, expire-IsSound, serve-IsSound, finish_reader-IsSound, close_all-IsSound,
}
use pony_downloader.Blob.Registry.Continuation.{continue_call-IsSound}
use pony_downloader.Blob.Registry.Later.{
  IsLater, IsLater-refl, IsLater-trans, methods-MethodsStay, same_store-IsLater, put-IsLater,
  create_opener-IsLater, release-IsLater, expire-IsLater, serve-IsLater, finish_reader-IsLater,
  continue_call-IsLater,
}

-- the registry of `NewRegistry`
abbrev pub new_registry : (ℕ → Source) → Registry
new_registry store = record {
  sources = [];
  store = store;
  readers = [];
  retained = λ x. 0;
  released = λ x. 0;
  created = [];
  unfinished = [];
}

-- The section that some call comes to next. Its source is one that has been created: `get` may have
-- found it long before.
pub data Step (r : Registry) : Registry → Type 0 where
  create :
      (a : ℕ) (session : Option ℕ) (range : Bool) (size : ℤ)
      → places a r.created ≡ 0
      → Step r (create_opener a session range size r).0
  watch : (a : ℕ) → Step r (start_unclaimed a r)
  claim : (a : ℕ) → Step r (acquire a r).0
  give_back : (a : ℕ) → 1 ≤ places a r.created → Step r (release a r).0
  withdraw : (a : ℕ) → 1 ≤ places a r.created → Step r (revoke_source a r)
  time_out : (a : ℕ) → 1 ≤ places a r.created → Step r (expire a r)
  respond : (a : ℕ) → 1 ≤ places a r.created → Step r (serve a r).0
  respond_end : (k : ℕ) → Step r (finish_reader k r)
  shut : Step r (close_all r)
  go_on : (k : ℕ) → Step r (continue_call k r)

pub data Reach (s : Registry) : Registry → Type 0 where
  here : Reach s s
  next : {r t : Registry} → Reach s r → Step r t → Reach s t

Step-IsSound : {r t : Registry} → Step r t → IsSound r → IsSound t
Step-IsSound (create a session range size new) i =
    create_opener-IsSound a session range size _ new i
Step-IsSound (watch a) i = start_unclaimed-IsSound a _ i
Step-IsSound (claim a) i = acquire-IsSound a _ i
Step-IsSound (give_back a c) i = release-IsSound a _ c i
Step-IsSound (withdraw a c) i = revoke_source-IsSound a _ c i
Step-IsSound (time_out a c) i = expire-IsSound a _ c i
Step-IsSound (respond a c) i = serve-IsSound a _ c i
Step-IsSound (respond_end k) i = finish_reader-IsSound k _ i
Step-IsSound shut i = close_all-IsSound _ i
Step-IsSound (go_on k) i = continue_call-IsSound k _ i

new_registry-IsSound : (store : ℕ → Source) → IsSound (new_registry store)
new_registry-IsSound store = record {
  once = λ a. omega arith;
  alive = λ a h. absurd (omega (arith, h));
  opened = λ a h. absurd (omega (arith, h));
  gone = λ a h. absurd (omega (arith, h));
  spent = λ a h. absurd (omega (arith, h));
  known = λ a h. absurd (omega (arith, h));
  balanced = λ x. refl;
}

Reach-IsSound_of : {store : ℕ → Source} {r : Registry} → Reach (new_registry store) r → IsSound r
Reach-IsSound_of here = new_registry-IsSound _
Reach-IsSound_of (next p s) = Step-IsSound s (Reach-IsSound_of p)

Step-IsLater : {r t : Registry} → Step r t → IsLater r t
unfolding acquire revoke_source start_unclaimed close_all
Step-IsLater {r} (create a session range size new) =
    create_opener-IsLater a session range size r new
Step-IsLater {r} (watch a) =
    put-IsLater r a (start_timer (r.store a)) r.unfinished
      (methods-MethodsStay (r.store a)).by_timer
Step-IsLater {r} (claim a) =
    put-IsLater r a (acquire_task (r.store a)).0 r.unfinished
      (methods-MethodsStay (r.store a)).by_acquire
Step-IsLater {r} (give_back a c) = release-IsLater a r
Step-IsLater {r} (withdraw a c) =
    put-IsLater r a (close (r.store a)).0 _ (methods-MethodsStay (r.store a)).by_close
Step-IsLater {r} (time_out a c) = expire-IsLater a r
Step-IsLater {r} (respond a c) = serve-IsLater a r
Step-IsLater {r} (respond_end k) = finish_reader-IsLater k r
Step-IsLater {r} shut = same_store-IsLater r _ (λ b. omega arith) (λ b. refl)
Step-IsLater {r} (go_on k) = continue_call-IsLater k r

Reach-IsLater : {r t : Registry} → Reach r t → IsLater r t
Reach-IsLater {r} here = IsLater-refl r
Reach-IsLater {r} {t} (next p s) = IsLater-trans r _ t (Reach-IsLater p) (Step-IsLater s)

-- However the sections of the calls interleave, in every registry r that they lead to each source that is
-- not revoked has its opener and is in the map or about to be closed, each that is about to be deleted is
-- revoked, each that is revoked holds no session, and each session was retained as often as it was
-- released and is held by sources, unfinished calls and responses; and in every registry t that r leads
-- to, a source that r has revoked is revoked with the task references that it had.
pub Reach-IsSound :
    {store : ℕ → Source} {r t : Registry}
    → Reach (new_registry store) r
    → Reach r t
    → IsSound r × IsLater r t
Reach-IsSound p q = (Reach-IsSound_of p, Reach-IsLater q)

no_holder :
    (r : Registry) (x : ℕ) (ts : List ℕ)
    → ((a : ℕ) → 1 ≤ places a ts → (r.store a).session ≡ none)
    → count (holds r.store x) ts ≡ 0
no_holder r x [] h = refl
no_holder r x (a ∷ ts) h =
    let ih = no_holder r x ts (λ b c. h b (omega (arith, c))) in
    let e = h a (ground arith) in ground (arith, ih, ap (λ o. has_session o x) e)

-- However the sections of the calls interleave, when the map is empty, as Close leaves it, and no call
-- has anything left to do, each session has one retain outstanding for each response that still reads
-- from it, and none if there is no such response.
pub close_all_lem :
    {store : ℕ → Source} {r : Registry}
    → Reach (new_registry store) r
    → r.sources ≡ []
    → r.unfinished ≡ []
    → (x : ℕ) → r.retained x ≡ r.released x + count (λ s. has_session s x) r.readers
close_all_lem {r = r} p no_sources no_calls x =
    let i = Reach-IsSound_of p in
    let all_spent : (a : ℕ) → 1 ≤ places a r.created → (r.store a).session ≡ none = λ a c.
      elim (Bool-cases (r.store a).revoked) [
        | inl e ↦ i.spent a c e
        | inr e ↦ absurd (
            omega (
              arith,
              i.alive a c e,
              ap (places a) no_sources,
              ap (λ us. count (closes a) us) no_calls,
            ))
      ] in
    omega (
      arith,
      i.balanced x,
      no_holder r x r.created all_spent,
      ap (λ us. count (owes x) us) no_calls,
    )
