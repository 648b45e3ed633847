-- ===== src/Actions/Repeat.antt =====
-- aether/actions/repeatable_task.h: a task that is scheduled again after each time it ran.
use aether_client_cpp.Prelude.{
  ℕ, zero, suc, ◌+◌, ◌≤◌, ◌<◌, ◌≡◌, refl, sym, subst, arith, min, leb, Bool, true, false, not,
  if◌then◌else◌, Option, none, some, Bool-cases, inl, inr,
}

-- `max_repeat_count` is none for kRepeatCountInfinite, and `waits` is whether the scheduler holds
-- the task. `runs` and `exceeded` count the calls of the task and of the event.
pub record RepeatableTask : Type 0 where
  pub max_repeat_count : Option ℕ
  pub current_repeat : ℕ
  pub stopped : Bool
  pub waits : Bool
  pub runs : ℕ
  pub exceeded : ℕ

-- Whether the count is reached.
unfoldable pub is_exceeded : RepeatableTask → Bool
is_exceeded t = elim t.max_repeat_count [ none ↦ false | some m ↦ leb m t.current_repeat ]

-- `accepts` is whether the scheduler has a place for the task that is scheduled after so many runs,
-- and `stops` whether the task calls `Stop` at its run of this number.
module _ (accepts stops : ℕ → Bool) where
  -- `Run`
  unfoldable pub run : RepeatableTask → RepeatableTask
  run t =
      if is_exceeded t
      then record t { exceeded = t.exceeded + 1 }
      else record t { current_repeat = t.current_repeat + 1; waits = accepts t.current_repeat }

  unfoldable pub init : Option ℕ → RepeatableTask
  init max_repeat_count = run (record {
    max_repeat_count = max_repeat_count;
    current_repeat = 0;
    stopped = false;
    waits = false;
    runs = 0;
    exceeded = 0;
  })

  unfoldable pub stop : RepeatableTask → RepeatableTask
  stop t = record t { stopped = true }

  -- The function that the scheduler holds.
  unfoldable pub on_time : RepeatableTask → RepeatableTask
  on_time t =
      let t1 = record t { runs = t.runs + 1 } in
      let again = run (if stops t.runs then stop t1 else t1) in if t.stopped then t else again

  -- The scheduler comes to the time of the task, where it holds it.
  unfoldable pub fire : RepeatableTask → RepeatableTask
  fire t = let fired = on_time (record t { waits = false }) in if t.waits then fired else t

  unfoldable pub fires : ℕ → RepeatableTask → RepeatableTask
  fires zero t = t
  fires (suc n) t = fires n (fire t)

-- A scheduler that always has a place, and a task that does not stop itself.
abbrev pub always : ℕ → Bool
always n = true

abbrev pub never : ℕ → Bool
never n = false

-- The state after `n` runs of at most `m`.
abbrev IsAfter : ℕ → ℕ → RepeatableTask → Type 0
IsAfter m n t =
    (t.max_repeat_count ≡ some m)
    × (t.runs ≡ n)
    × (t.stopped ≡ false)
    × (t.current_repeat ≡ min m (n + 1))
    × (t.waits ≡ not (leb m n))
    × (t.exceeded ≡ (if leb m n then 1 else 0))

run-IsAfter :
    (m n : ℕ) (t : RepeatableTask)
    → (t.max_repeat_count ≡ some m) × (t.runs ≡ n) × (t.stopped ≡ false)
    → (t.current_repeat ≡ n) × (t.waits ≡ false) × (t.exceeded ≡ 0)
    → n ≤ m
    → IsAfter m n (run always never t)
unfolding run is_exceeded
run-IsAfter m n t (e, r, s) (c, w, x) l = ground (arith, e, r, s, c, w, x)

fire-IsAfter :
    (m n : ℕ) (t : RepeatableTask) → IsAfter m n t → n < m → IsAfter m (n + 1) (fire always never t)
unfolding fire on_time
fire-IsAfter m n t (e, r, s, c, w, x) l =
    let t1 = record t { waits = false; runs = t.runs + 1 } in
    let after =
      run-IsAfter m (n + 1) t1 (e, omega (arith, r), s)
        (omega (arith, c, l), refl, ground (arith, x, l)) (omega arith) in
    let held : t.waits ≡ true = ground (arith, w, l) in
    let same : fire always never t ≡ run always never t1 = ground (arith, held, s) in
    subst (IsAfter m (n + 1)) (sym same) after

fire_done : (m : ℕ) (t : RepeatableTask) → IsAfter m m t → fire always never t ≡ t
unfolding fire
fire_done m t (e, r, s, c, w, x) = ground (arith, w)

fires-IsAfter :
    (m k n : ℕ) (t : RepeatableTask)
    → IsAfter m n t
    → n ≤ m
    → IsAfter m (min m (n + k)) (fires always never k t)
unfolding fires
fires-IsAfter m zero n t h l = subst (λ j. IsAfter m j t) {x = n} (omega arith) h
fires-IsAfter m (suc k) n t h l = elim (Bool-cases (leb m n)) [
  | inl done ↦
      let same : n ≡ m = ground (arith, done, l) in
      let h1 = subst (λ j. IsAfter m j t) same h in
      let rest = fires-IsAfter m k m t h1 (omega arith) in
      let stays = sym (fire_done m t h1) in
      let counted : min m (m + k) ≡ min m (n + suc k) = omega (arith, same) in
      subst (λ j. IsAfter m j (fires always never k (fire always never t))) counted
        (subst (λ u. IsAfter m (min m (m + k)) (fires always never k u)) stays rest)
  | inr before ↦
      let less : n < m = ground (arith, before) in
      subst (λ j. IsAfter m j (fires always never k (fire always never t))) {x = min m (n + 1 + k)}
        (omega arith)
        (fires-IsAfter m k (n + 1) (fire always never t) (fire-IsAfter m n t h less) (omega arith))
]

fires_still :
    (accepts stops : ℕ → Bool) (k : ℕ) (t : RepeatableTask)
    → t.waits ≡ false
    → fires accepts stops k t ≡ t
unfolding fires fire
fires_still accepts stops zero t w = refl
fires_still accepts stops (suc k) t w =
    let same : fire accepts stops t ≡ t = ground (arith, w) in
    rw same (fires_still accepts stops k t w)

-- With a scheduler that always has a place: a task that does not stop, of at most `m` runs, has run
-- `min m k` times after its time came `k` times, waits for another run while there were fewer than
-- `m`, and has told just once that the count is exceeded when there were `m`.
pub fires_lem :
    (m k : ℕ)
    → let t = fires always never k (init always never (some m)) in
      (t.runs ≡ min m k) × (t.waits ≡ not (leb m k)) × (t.exceeded ≡ (if leb m k then 1 else 0))
unfolding init
fires_lem m k =
    let t0 : RepeatableTask = record {
      max_repeat_count = some m;
      current_repeat = 0;
      stopped = false;
      waits = false;
      runs = 0;
      exceeded = 0;
    } in
    let first = run-IsAfter m 0 t0 (refl, refl, refl) (refl, refl, refl) (omega arith) in
    let (_, r, _, _, w, x) = fires-IsAfter m k 0 (run always never t0) first (omega arith) in
    (omega (arith, r), ground (arith, w), ground (arith, x))

fire-stop :
    (accepts stops : ℕ → Bool) (t : RepeatableTask)
    → let t1 = fire accepts stops (stop accepts stops t) in
      (t1.runs ≡ t.runs) × (t1.exceeded ≡ t.exceeded) × (t1.waits ≡ false)
unfolding fire on_time stop
fire-stop accepts stops t = ground arith

-- A task that is stopped runs no more, whatever it does and whenever the scheduler has a place; when
-- its time comes once more it is not scheduled again.
pub fires-stop :
    (accepts stops : ℕ → Bool) (k : ℕ) (t : RepeatableTask)
    → let t1 = fires accepts stops (suc k) (stop accepts stops t) in
      (t1.runs ≡ t.runs) × (t1.exceeded ≡ t.exceeded) × (t1.waits ≡ false)
unfolding fires
fires-stop accepts stops k t =
    let first = fire-stop accepts stops t in
    rw (fires_still accepts stops k (fire accepts stops (stop accepts stops t)) first.2) first
