-- ===== src/Tests/Sharing.antt =====
-- A run of the thread pool (libs/srapi/src/vm/threadpool.c): one worker and the caller share two tiles,
-- and the caller waits for the worker.
use one_tool.Common.{ℕ, ◌<◌, true, [], ◌∷◌, ◌≡◌, ◌⊎◌, refl, arith, if◌then◌else◌, ltb}
use one_tool.Srapi.Pool.{
  Pool, look, fetch, complete, leave, signal_done, caller_fetch, caller_complete, caller_test,
  awaken, publish, init_pool, Work, worker_looks, worker_fetches, worker_completes, worker_leaves,
  caller_fetches, caller_completes, caller_tests, works, Reach, here, then_step, has_returned,
  shared,
}
use one_tool.Srapi.Pool.Shares.{count}
use one_tool.Srapi.Pool.Once.{IsResting, init_pool-IsResting, dispatch-once}
use one_tool.Srapi.Pool.Progress.{weight, Reach-progress}

abbrev start : Pool
start = init_pool 1

-- Each takes a tile; the caller finds no other and waits.
abbrev waiting : Pool
waiting = caller_test (
    caller_fetch
      (caller_complete (complete (caller_fetch (fetch (look (publish 2 start) 0 0) 0 1)) 0 1 0) 1))

abbrev ended : Pool
ended = caller_test (leave (fetch waiting 0 1) 0 1)

waiting-Reach : Reach (publish 2 start) waiting
unfolding init_pool publish awaken look fetch complete caller_fetch caller_complete caller_test
waiting-Reach =
    then_step
      (then_step
        (then_step
          (then_step
            (then_step
              (then_step (then_step here (works (worker_looks 0 0 refl refl)))
                (works (worker_fetches 0 1 refl refl)))
              (works (caller_fetches refl refl)))
            (works (worker_completes 0 1 0 refl refl)))
          (works (caller_completes 1 refl refl)))
        (works (caller_fetches refl refl)))
      (works (caller_tests refl refl))

ended-Reach : Reach (publish 2 start) ended
unfolding init_pool publish awaken look fetch complete leave signal_done caller_fetch
    caller_complete caller_test
ended-Reach =
    then_step
      (then_step (then_step waiting-Reach (works (worker_fetches 0 1 refl refl)))
        (works (worker_leaves 0 1 refl refl)))
      (works (caller_tests refl refl))

dispatch-once_example :
    ((i : ℕ) → count i (1 ∷ 0 ∷ []) ≡ (if ltb i 2 then 1 else 0)) × IsResting ended
unfolding init_pool publish awaken look fetch complete leave signal_done caller_fetch
    caller_complete caller_test
dispatch-once_example =
    dispatch-once start 2 ended (1 ∷ 0 ∷ []) (omega arith) (init_pool-IsResting 1)
      (shared refl ended-Reach refl refl)

Reach-progress_example :
    ((has_returned waiting.caller ≡ true) ⊎ ((r : Pool) × Work waiting r))
    × ((r : Pool) → Work waiting r → weight r < weight waiting)
unfolding init_pool
Reach-progress_example =
    Reach-progress start 2 waiting (omega arith) (init_pool-IsResting 1) waiting-Reach
