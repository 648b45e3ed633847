-- ===== src/Actions/Pool.antt =====
-- aether/actions/action_pool.h: a pool of actions, each of which is destroyed by a task of the
-- scheduler after it finished. The scheduler runs the tasks of this pool.
use aether_client_cpp.Prelude.{
  ℕ, ◌+◌, ◌≤◌, ◌≡◌, arith, leb, ◌==◌, false, if◌then◌else◌, List, [], ◌∷◌, ◌++◌, Option, none, some,
  length,
}
use aether_client_cpp.Tasks.Queues.{Task, steal_regular}
use aether_client_cpp.Tasks.Scheduler.{Request, task, Scheduler, is_active, apply, update}
use aether_client_cpp.Tasks.Scheduler.Resubscribed.{apply-once, apply-twice}

-- The actions by their addresses. The function of a task is the address that it destroys.
pub record ActionPool : Type 0 where
  pub actions : List ℕ
  pub scheduler : Scheduler

-- `etl::pool::destroy`
unfoldable pub destroy_action : ℕ → List ℕ → List ℕ
destroy_action p [] = []
destroy_action p (a ∷ others) =
    let rest = destroy_action p others in if a == p then others else a ∷ rest

-- What the tasks destroy that `Update` invokes.
unfoldable pub destroy_all : Scheduler → List Task → List ℕ → List ℕ
destroy_all s [] actions = actions
destroy_all s (t ∷ ts) actions =
    destroy_all s ts (if is_active s.links t then destroy_action t.run actions else actions)

unfoldable pub no_requests : ℕ → List Request
no_requests run = []

-- `capacity` and `place` are those of the scheduler, `ts` is the subscription of the pool.
module _ (capacity : ℕ) (place : ℕ → ℕ) (ts : ℕ) where
  -- `Create` of a pool of `size` places, with the address `p`.
  unfoldable pub create : ℕ → ActionPool → ℕ → Option ActionPool
  create size pool p =
      if leb size (length pool.actions)
      then none
      else some (record pool { actions = pool.actions ++ p ∷ [] })

  -- The handler of the finished event, `Destroy`.
  unfoldable pub destroy : ActionPool → ℕ → ActionPool
  destroy pool p = record pool { scheduler = apply capacity place pool.scheduler (task ts p) }

  -- `Update` of the scheduler.
  unfoldable pub update_pool : ActionPool → ℕ → ActionPool
  update_pool pool now =
      let s = pool.scheduler in
      let (tasks, rest) = steal_regular capacity s.regular [] in
      record {
        actions = destroy_all s tasks pool.actions;
        scheduler = (update capacity place no_requests s now).0;
      }

  -- When no task waits and the scheduler has a place: an action that finishes is destroyed by the
  -- next `Update`, and no other is.
  pub update_pool-destroy :
      (pool : ActionPool) (p now : ℕ)
      → pool.scheduler.regular ≡ []
      → pool.scheduler.used + 1 ≤ capacity
      → (update_pool (destroy pool p) now).actions ≡ destroy_action p pool.actions
  unfolding update_pool destroy steal_regular destroy_all
  update_pool-destroy pool p now e h =
      let (t, r, run, active) = apply-once capacity place pool.scheduler ts p e h in
      ground (arith, r, run, active, h)

  -- When no task waits and the scheduler has two places, which differ: if two actions finish before
  -- the next `Update`, this destroys the second and leaves the first in the pool.
  pub update_pool-destroy_both :
      (pool : ActionPool) (p q now : ℕ)
      → pool.scheduler.regular ≡ []
      → pool.scheduler.used + 2 ≤ capacity
      → (place pool.scheduler.next_id == place (pool.scheduler.next_id + 1)) ≡ false
      → (update_pool (destroy (destroy pool p) q) now).actions ≡ destroy_action q pool.actions
  unfolding update_pool destroy steal_regular destroy_all
  update_pool-destroy_both pool p q now e h n =
      let (t, t', r, run, run', active, active') =
        apply-twice capacity place pool.scheduler ts p q e h n in
      ground (arith, r, run, run', active, active', h)
