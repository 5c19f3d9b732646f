-- ===== src/Srapi/Pool/Once.antt =====
-- libs/srapi/src/vm/threadpool.c: what holds when `srapi_vm_threadpool_dispatch` returns.
use one_tool.Common.{
  ℕ, zero, suc, ◌+◌, ◌^◌, ◌≤◌, ◌<◌, true, false, List, [], ◌∷◌, ltb, leb, ◌==◌, ◌&&◌, if◌then◌else◌,
  replicate, map, ◌≡◌, refl, arith,
}
use one_tool.Common.Bits.{u64}
use one_tool.Srapi.Pool.{
  Stage, looking, asleep, looping, running, leaving, Caller, serving, calling, testing, blocked,
  returned, Pool, look, fetch, complete, leave, caller_fetch, caller_complete, caller_test, Work,
  worker_looks, worker_fetches, worker_completes, worker_leaves, caller_fetches, caller_completes,
  caller_tests, wake_worker, wake_caller, Step, works, worker_wakes, caller_wakes, Reach, here,
  then_step, has_returned, awaken, publish, init_pool, serial, Dispatched, no_tiles, alone, shared,
}
use one_tool.Srapi.Pool.Shares.{
  count, sum_of, runs, caller_runs, unseen, busy, idle, one, past, caller_past, Shares,
}
use one_tool.Srapi.Pool.Worker.{look-Shares, fetch-Shares, complete-Shares, wake-Shares}
use one_tool.Srapi.Pool.Call.{
  leave-Shares, caller_fetch-Shares, caller_complete-Shares, caller_test-Shares, wake_caller-Shares,
}

-- What no step changes.
abbrev pub Same : Pool → Pool → Type 0
Same p q = (q.total ≡ p.total) × (q.n_workers ≡ p.n_workers) × (q.job_seq ≡ p.job_seq)

pub Work-Shares :
    {p q : Pool} → p.total + p.n_workers + 2 < 2 ^ 32 → Shares p → Work p q → Shares q × Same p q
unfolding look fetch complete leave caller_fetch caller_complete caller_test
Work-Shares {p} small s (worker_looks k l at e) = rw e (look-Shares p k l at s, (refl, refl, refl))
Work-Shares {p} small s (worker_fetches k t at e) =
    rw e (fetch-Shares p k t small at s, (refl, refl, refl))
Work-Shares {p} small s (worker_completes k t i at e) =
    rw e (complete-Shares p k t i at s, (refl, refl, refl))
Work-Shares {p} small s (worker_leaves k t at e) =
    rw e (leave-Shares p k t at s, (refl, refl, refl))
Work-Shares {p} small s (caller_fetches at e) =
    rw e (caller_fetch-Shares p small at s, (refl, refl, refl))
Work-Shares {p} small s (caller_completes i at e) =
    rw e (caller_complete-Shares p i at s, (refl, refl, refl))
Work-Shares {p} small s (caller_tests at e) = rw e (caller_test-Shares p at s, (refl, refl, refl))

Step-Shares :
    {p q : Pool} → p.total + p.n_workers + 2 < 2 ^ 32 → Shares p → Step p q → Shares q × Same p q
unfolding wake_worker wake_caller
Step-Shares small s (works work) = Work-Shares small s work
Step-Shares {p} small s (worker_wakes k l at e) = rw e (wake-Shares p k l at s, (refl, refl, refl))
Step-Shares {p} small s (caller_wakes at e) = rw e (wake_caller-Shares p at s, (refl, refl, refl))

pub Reach-Shares :
    {p q : Pool} → p.total + p.n_workers + 2 < 2 ^ 32 → Shares p → Reach p q → Shares q × Same p q
Reach-Shares small s here = (s, (refl, refl, refl))
Reach-Shares {p} small s (then_step {q} before step) =
    let (shares, (total, sizes, seq)) = Reach-Shares small s before in
    let (later, (kept, kept_sizes, kept_seq)) = Step-Shares (omega arith) shares step in
    (later, (omega arith, omega arith, omega arith))

-- Between two jobs: no job is published, and each worker looks for or awaits one whose number is not
-- that of the last.
pub record IsResting (p : Pool) : Type 0 where
  pub no_job : p.job ≡ false
  pub seq_fits : p.job_seq < 2 ^ 64
  pub all_idle : sum_of (idle p.job_seq) p.workers ≡ sum_of one p.workers
  pub all_there : sum_of one p.workers ≡ p.n_workers
  pub home : has_returned p.caller ≡ true

idle-le : (seq : ℕ) (stages : List Stage) → sum_of (idle seq) stages ≤ sum_of one stages
idle-le seq [] = omega arith
idle-le seq (s ∷ stages) = ground (arith, idle-le seq stages)

-- What the broadcast makes of idle workers, counted for the next job.
record Woken (seq : ℕ) (stages after : List Stage) : Type 0 where
  none_runs : (i : ℕ) → sum_of (runs i) after ≡ 0
  all_fresh : sum_of (unseen seq) after ≡ sum_of one stages
  none_busy : sum_of (busy seq) after ≡ 0
  none_idle : sum_of (idle seq) after ≡ 0
  none_past : sum_of (past seq) after ≡ 0
  all_kept : sum_of one after ≡ sum_of one stages

awaken-Woken :
    (seq next : ℕ) (stages : List Stage)
    → (seq == next) ≡ false
    → sum_of (idle seq) stages ≡ sum_of one stages
    → Woken next stages (map awaken stages)
unfolding awaken
awaken-Woken seq next [] other all = record {
  none_runs = λ i. refl;
  all_fresh = refl;
  none_busy = refl;
  none_idle = refl;
  none_past = refl;
  all_kept = refl;
}
awaken-Woken seq next (looking l ∷ stages) other all =
    let fewer = idle-le seq stages in
    let w = awaken-Woken seq next stages other (ground (arith, fewer, all)) in
    let last : (l == next) ≡ false = ground (arith, fewer, all, other) in
    record {
      none_runs = λ i. omega (arith, w.none_runs i);
      all_fresh = ground (arith, last, w.all_fresh);
      none_busy = omega (arith, w.none_busy);
      none_idle = ground (arith, last, w.none_idle);
      none_past = ground (arith, last, w.none_past);
      all_kept = omega (arith, w.all_kept);
    }
awaken-Woken seq next (asleep l ∷ stages) other all =
    let fewer = idle-le seq stages in
    let w = awaken-Woken seq next stages other (ground (arith, fewer, all)) in
    let last : (l == next) ≡ false = ground (arith, fewer, all, other) in
    record {
      none_runs = λ i. omega (arith, w.none_runs i);
      all_fresh = ground (arith, last, w.all_fresh);
      none_busy = omega (arith, w.none_busy);
      none_idle = ground (arith, last, w.none_idle);
      none_past = ground (arith, last, w.none_past);
      all_kept = omega (arith, w.all_kept);
    }
awaken-Woken seq next (looping s ∷ stages) other all =
    let fewer = idle-le seq stages in absurd (omega arith)
awaken-Woken seq next (running s i ∷ stages) other all =
    let fewer = idle-le seq stages in absurd (omega arith)
awaken-Woken seq next (leaving s ∷ stages) other all =
    let fewer = idle-le seq stages in absurd (omega arith)

pub publish-Shares : (p : Pool) (total : ℕ) → IsResting p → Shares (publish total p)
unfolding publish
publish-Shares p total rest =
    let next = u64 (p.job_seq + 1) in
    let small = rest.seq_fits in
    let other : (p.job_seq == next) ≡ false = ground arith in
    let w = awaken-Woken p.job_seq next p.workers other rest.all_idle in
    record {
      once = λ i. ground (arith, w.none_runs i);
      kinds = omega (arith, w.all_fresh, w.none_busy, w.none_idle, rest.all_there);
      sized = omega (arith, w.all_kept, rest.all_there);
      counted = w.none_idle;
      close = omega arith;
      over = λ h. absurd (omega (arith, w.none_past));
      has_job = refl;
      all_done = λ h. cc;
      waited_for = λ h. cc;
    }

pub publish-same :
    (p : Pool) (total : ℕ)
    → ((publish total p).total ≡ total)
      × ((publish total p).n_workers ≡ p.n_workers)
      × ((publish total p).job_seq < 2 ^ 64)
unfolding publish
publish-same p total = (refl, refl, omega arith)

-- No thread is in a call when the caller has returned.
none_run :
    (seq i : ℕ) (stages : List Stage)
    → sum_of (idle seq) stages ≡ sum_of one stages
    → sum_of (runs i) stages ≡ 0
none_run seq i [] all = refl
none_run seq i (s ∷ stages) all =
    let fewer = idle-le seq stages in
    ground (arith, fewer, none_run seq i stages (ground (arith, fewer, all)))

home_runs : (c : Caller) (i : ℕ) → has_returned c ≡ true → caller_runs i c ≡ 0
home_runs returned i h = refl
home_runs serving i h = cc
home_runs (calling j) i h = cc
home_runs testing i h = cc
home_runs blocked i h = cc

home_past : (c : Caller) → has_returned c ≡ true → caller_past c ≡ 1
home_past returned h = refl
home_past serving h = cc
home_past (calling j) h = cc
home_past testing h = cc
home_past blocked h = cc

count-serial :
    (n start : ℕ) (calls : List ℕ) (i : ℕ)
    → count i (serial n start calls)
      ≡ count i calls + (if leb start i && ltb i (start + n) then 1 else 0)
unfolding serial
count-serial zero start calls i = ground arith
count-serial (suc n) start calls i = ground (arith, count-serial n (start + 1) (start ∷ calls) i)

init_stages :
    (n : ℕ)
    → (sum_of (idle 0) (replicate n (looking 0)) ≡ n) × (sum_of one (replicate n (looking 0)) ≡ n)
init_stages zero = (refl, refl)
init_stages (suc n) = (omega (arith, init_stages n), omega (arith, init_stages n))

-- The first dispatch starts at rest.
pub init_pool-IsResting : (started : ℕ) → IsResting (init_pool started)
unfolding init_pool
init_pool-IsResting started =
    let (idle_all, all) = init_stages started in
    record {
      no_job = refl;
      seq_fits = omega arith;
      all_idle = omega arith;
      all_there = all;
      home = refl;
    }

-- With fewer than 2^32 tiles and workers together, if no job is under way and each worker looks for or
-- awaits a new one, then when `srapi_vm_threadpool_dispatch` returns, the function has been called once
-- for each tile and for no other index, in whatever order the threads took their steps, and the state
-- is again such a one.
pub dispatch-once :
    (p : Pool) (tile_count : ℕ) (q : Pool) (calls : List ℕ)
    → tile_count + p.n_workers + 2 < 2 ^ 32
    → IsResting p
    → Dispatched p tile_count q calls
    → ((i : ℕ) → count i calls ≡ (if ltb i tile_count then 1 else 0)) × IsResting q
dispatch-once p tile_count q calls small rest (no_tiles e f c) =
    (λ i. rw (e, c) (ground arith), rw f rest)
dispatch-once p tile_count q calls small rest (alone e f c) =
    (λ i. rw c (ground (arith, count-serial tile_count 0 [] i)), rw f rest)
dispatch-once p tile_count q calls small rest (shared e reach home c) =
    let (total, sizes, seq) = publish-same p tile_count in
    let (s, (kept, kept_sizes, kept_seq)) =
      Reach-Shares (omega arith) (publish-Shares p tile_count rest) reach in
    let done = s.all_done home in
    let all : sum_of (idle q.job_seq) q.workers ≡ sum_of one q.workers =
      omega (arith, s.counted, s.sized) in
    (
      λ i.
          (let none_here = none_run q.job_seq i q.workers all in
            let none_there = home_runs q.caller i home in
            let reached : q.total ≤ q.next = s.over (omega (arith, home_past q.caller home)) in
            rw c (ground (arith, s.once i))),
      record {
        no_job = ground (arith, s.has_job, home);
        seq_fits = omega arith;
        all_idle = all;
        all_there = s.sized;
        home = home;
      },
    )
