-- ===== src/Srapi/Pool/Shares.antt =====
-- libs/srapi/src/vm/threadpool.c: the invariant of a job.
use one_tool.Common.{
  ℕ, zero, suc, ◌+◌, ◌^◌, ◌≤◌, ◌<◌, Bool, true, false, not, List, [], ◌∷◌, some, ltb, ◌==◌, ◌&&◌,
  if◌then◌else◌, get_elem?, set, ◌≡◌, arith,
}
use one_tool.Common.Bits.{u32}
use one_tool.Srapi.Pool.{
  Stage, looking, asleep, looping, running, leaving, Caller, serving, calling, testing, blocked,
  returned, Pool, has_returned,
}

abbrev pub count : ℕ → List ℕ → ℕ
count i [] = 0
count i (x ∷ xs) = (if x == i then 1 else 0) + count i xs

-- A sum over the workers.
abbrev pub sum_of : (Stage → ℕ) → List Stage → ℕ
sum_of f [] = 0
sum_of f (s ∷ stages) = f s + sum_of f stages

pub sum_of-set :
    (f : Stage → ℕ) (stages : List Stage) (k : ℕ) (old new : Stage)
    → get_elem? stages k ≡ some old
    → sum_of f (set stages k new) + f old ≡ sum_of f stages + f new
sum_of-set f [] k old new h = cc
sum_of-set f (s ∷ stages) zero old new h = let same : s ≡ old = cc in rw same (omega arith)
sum_of-set f (s ∷ stages) (suc k) old new h = omega (arith, sum_of-set f stages k old new h)

abbrev pub runs : ℕ → Stage → ℕ
runs i (running s j) = if j == i then 1 else 0
runs i (looking l) = 0
runs i (asleep l) = 0
runs i (looping s) = 0
runs i (leaving s) = 0

abbrev pub caller_runs : ℕ → Caller → ℕ
caller_runs i (calling j) = if j == i then 1 else 0
caller_runs i serving = 0
caller_runs i testing = 0
caller_runs i blocked = 0
caller_runs i returned = 0

-- A worker that has not yet seen the job, one at work on it, and one that has counted itself.
abbrev pub unseen : ℕ → Stage → ℕ
unseen seq (looking l) = if l == seq then 0 else 1
unseen seq (asleep l) = 0
unseen seq (looping s) = 0
unseen seq (running s i) = 0
unseen seq (leaving s) = 0

abbrev pub busy : ℕ → Stage → ℕ
busy seq (looking l) = 0
busy seq (asleep l) = 0
busy seq (looping s) = if s == seq then 1 else 0
busy seq (running s i) = if s == seq then 1 else 0
busy seq (leaving s) = if s == seq then 1 else 0

abbrev pub idle : ℕ → Stage → ℕ
idle seq (looking l) = if l == seq then 1 else 0
idle seq (asleep l) = if l == seq then 1 else 0
idle seq (looping s) = 0
idle seq (running s i) = 0
idle seq (leaving s) = 0

abbrev pub one : Stage → ℕ
one s = 1

-- The threads that have left their loops.
abbrev pub past : ℕ → Stage → ℕ
past seq (looking l) = if l == seq then 1 else 0
past seq (asleep l) = if l == seq then 1 else 0
past seq (looping s) = 0
past seq (running s i) = 0
past seq (leaving s) = 1

abbrev pub caller_past : Caller → ℕ
caller_past serving = 0
caller_past (calling i) = 0
caller_past testing = 1
caller_past blocked = 1
caller_past returned = 1

abbrev pub is_blocked : Caller → Bool
is_blocked blocked = true
is_blocked serving = false
is_blocked (calling i) = false
is_blocked testing = false
is_blocked returned = false

-- Each claimed tile is run or being run, once; the counter passes `total` only by threads that then
-- leave; `workers_done` counts the workers that are done with this job; the caller waits only while
-- some are not, and returns when none is left.
pub record Shares (p : Pool) : Type 0 where
  pub once :
      (i : ℕ)
      → count i p.calls + sum_of (runs i) p.workers + caller_runs i p.caller
        ≡ (if ltb i p.next && ltb i p.total then 1 else 0)
  pub kinds :
      sum_of (unseen p.job_seq) p.workers
        + sum_of (busy p.job_seq) p.workers
        + sum_of (idle p.job_seq) p.workers
      ≡ p.n_workers
  pub sized : sum_of one p.workers ≡ p.n_workers
  pub counted : sum_of (idle p.job_seq) p.workers ≡ p.workers_done
  pub close : p.next ≤ p.total + sum_of (past p.job_seq) p.workers + caller_past p.caller
  pub over : 0 < sum_of (past p.job_seq) p.workers + caller_past p.caller → p.total ≤ p.next
  pub has_job : p.job ≡ not (has_returned p.caller)
  pub all_done : has_returned p.caller ≡ true → p.workers_done ≡ p.n_workers
  pub waited_for : is_blocked p.caller ≡ true → p.workers_done < p.n_workers

pub past-le : (seq : ℕ) (stages : List Stage) → sum_of (past seq) stages ≤ sum_of one stages
past-le seq [] = omega arith
past-le seq (s ∷ stages) = ground (arith, past-le seq stages)

caller_past-le : (c : Caller) → caller_past c ≤ 1
caller_past-le serving = omega arith
caller_past-le (calling i) = omega arith
caller_past-le testing = omega arith
caller_past-le blocked = omega arith
caller_past-le returned = omega arith

-- The counter does not wrap.
pub next-wrap :
    (p : Pool) → p.total + p.n_workers + 2 < 2 ^ 32 → Shares p → u32 (p.next + 1) ≡ p.next + 1
next-wrap p small s =
    let workers = past-le p.job_seq p.workers in
    let caller = caller_past-le p.caller in
    let below : p.next + 1 < 2 ^ 32 = omega (arith, s.close, s.sized) in omega arith
