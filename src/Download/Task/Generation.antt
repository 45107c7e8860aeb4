-- ===== src/Download/Task/Generation.antt =====
-- The generation counter, by which a handler finds out what has happened to its task.
use pony_downloader.Common.{
  ℕ, ◌+◌, ◌%◌, ◌^◌, ◌≤◌, ◌<◌, ◌≡◌, refl, ◌∙◌, Bool, true, false, List, [], ◌∷◌, arith,
  if◌then◌else◌, length, Bool-cases, inl, inr, ◌⊎◌, ap, if_cases, ◌&&◌, ◌||◌, ◌==◌,
}
use pony_downloader.Download.Task.{
  Task, wait, is_running, is_done, is_settled, is_pause, set_waiting, queue_paused, start_status,
  prepare_pause, mark_task_done, mark_task_error, task_is_running_generation,
}

-- The calls that change the status: `doStart`, `preparePause`, `markTaskDone`, `markTaskError`, the write
-- of `Continue`, `continueAll` and `doCreate` for a task that has to wait, and the end of
-- `doPauseForScheduling`. The last two leave the generation as it is.
pub data Action : Type 0 where
  start stop finish fail hold : Action
  queue : ℕ → Action

unfoldable pub act : Task → Action → Task × Bool
act t start = start_status t
act t stop = prepare_pause t
act t finish = mark_task_done t
act t fail = mark_task_error t
act t hold = (set_waiting t, false)
act t (queue generation) = ((queue_paused generation t).0, false)

-- the task after the actions, and how many of them counted a generation
unfoldable pub act_all : Task → List Action → Task × ℕ
act_all t [] = (t, 0)
act_all t (a ∷ rest) =
    let (t', took) = act t a in let (u, n) = act_all t' rest in (u, (if took then 1 else 0) + n)

-- An action that counts a generation counts one, and after another the task waits or is as it was.
act-true :
    (t : Task) (a : Action)
    → (act t a).1 ≡ true
    → (act t a).0.run_generation ≡ (t.run_generation + 1) % 2 ^ 64
unfolding act start_status prepare_pause mark_task_done mark_task_error
act-true t start h = ground arith
act-true t stop h = ground arith
act-true t finish h = ground arith
act-true t fail h = ground arith
act-true t hold h = ground arith
act-true t (queue g) h = ground arith

-- what an action leaves that counts no generation
record Leaves (t u : Task) : Type 0 where
  same_generation : u.run_generation ≡ t.run_generation
  same_or_waits : (u ≡ t) ⊎ (u.status ≡ wait)

kept : (t : Task) → Leaves t t
kept t = record { same_generation = refl; same_or_waits = inl refl }

act-false : (t : Task) (a : Action) → (act t a).1 ≡ false → Leaves t (act t a).0
unfolding act start_status prepare_pause mark_task_done mark_task_error queue_paused
act-false t start h =
    if_cases (λ (p : Task × Bool). p.1 ≡ false → Leaves t p.0)
      (is_running t.status || is_done t.status) _ _ (λ _ _. kept t) (λ _ e. absurd (cc)) h
act-false t stop h =
    if_cases (λ (p : Task × Bool). p.1 ≡ false → Leaves t p.0) (is_settled t.status) _ _
      (λ _ _. kept t) (λ _ e. absurd (cc)) h
act-false t finish h =
    if_cases (λ (p : Task × Bool). p.1 ≡ false → Leaves t p.0) (is_running t.status) _ _
      (λ _ e. absurd (cc)) (λ _ _. kept t) h
act-false t fail h =
    if_cases (λ (p : Task × Bool). p.1 ≡ false → Leaves t p.0) (is_running t.status) _ _
      (λ _ e. absurd (cc)) (λ _ _. kept t) h
act-false t hold h = record { same_generation = refl; same_or_waits = inr refl }
act-false t (queue g) h =
    if_cases (λ (p : Task × Bool). Leaves t p.0) (is_pause t.status && t.run_generation == g) _ _
      (λ _. record { same_generation = refl; same_or_waits = inr refl }) (λ _. kept t)

act_all_generation :
    (t : Task) (actions : List Action)
    → t.run_generation < 2 ^ 64
    → (act_all t actions).0.run_generation ≡ (t.run_generation + (act_all t actions).1) % 2 ^ 64
unfolding act_all
act_all_generation t [] g = omega arith
act_all_generation t (a ∷ rest) g = elim (Bool-cases (act t a).1) [
  | inl took ↦
      let ih = act_all_generation (act t a).0 rest (omega (arith, act-true t a took)) in
      rw took (omega (arith, ih, act-true t a took))
  | inr idle ↦
      let same = (act-false t a idle).same_generation in
      let ih = act_all_generation (act t a).0 rest (omega (arith, same, g)) in
      rw idle (omega (arith, ih, same))
]

act_all_count : (t : Task) (actions : List Action) → (act_all t actions).1 ≤ length actions
unfolding act_all
act_all_count t [] = omega arith
act_all_count t (a ∷ rest) = ground (arith, act_all_count (act t a).0 rest)

-- Where no action counts a generation, the task is as it was or waits.
act_all_idle :
    (t : Task) (actions : List Action)
    → (act_all t actions).1 ≡ 0
    → ((act_all t actions).0 ≡ t) ⊎ ((act_all t actions).0.status ≡ wait)
unfolding act_all
act_all_idle t [] n = inl refl
act_all_idle t (a ∷ rest) n = elim (Bool-cases (act t a).1) [
  | inl took ↦ absurd (ground arith)
  | inr idle ↦ elim (act_all_idle (act t a).0 rest (ground arith)) [
    | inr w ↦ inr w
    | inl same ↦ elim (act-false t a idle).same_or_waits [
      | inl e ↦ inl (same ∙ e)
      | inr w ↦ inr (ap (λ x. x.status) same ∙ w)
    ]
  ]
]

-- A handler that was launched with the present generation, and that finds it again while the task
-- runs, finds the task as it was: of the fewer than 2^64 actions since, none counted a generation. The
-- actions are all calls that write the status, those included that only set it to waiting.
pub stale_handler_stops :
    (t : Task) (actions : List Action)
    → t.run_generation < 2 ^ 64
    → length actions < 2 ^ 64
    → task_is_running_generation (act_all t actions).0 t.run_generation ≡ true
    → ((act_all t actions).1 ≡ 0) × ((act_all t actions).0 ≡ t)
unfolding task_is_running_generation
stale_handler_stops t actions g l h = (
  none_took,
  elim (act_all_idle t actions none_took) [
    | inl same ↦ same
    | inr w ↦ absurd (ground (arith, h, ap is_running w))
  ],
)
  where
    none_took : (act_all t actions).1 ≡ 0
    none_took = ground (arith, act_all_generation t actions g, act_all_count t actions)
