-- ===== src/Srapi/Pool.antt =====
-- libs/srapi/src/vm/threadpool.c: the workers that share out the tiles of one job with the thread that
-- calls `srapi_vm_threadpool_dispatch`. A state holds the globals of the file, the fields of
-- `pool_job_t` and where each thread stands; a step is one thread's: an `atomic_fetch_add`, the return
-- of the job's function, what is done while `mu` is held, or a wakeup.
pub mod Shares
pub mod Call
pub mod Worker
pub mod Once
pub mod Progress
use one_tool.Common.{
  ℕ, zero, suc, ◌+◌, ◌^◌, ◌<◌, Bool, true, false, not, List, [], ◌∷◌, ◌++◌, Option, some, ltb, leb,
  ◌==◌, ◌||◌, if◌then◌else◌, get_elem?, set, replicate, map, ◌≡◌,
}
use one_tool.Common.Bits.{u32, u64}

-- A worker is about to lock `mu` and test for a job, waits on `cv_go`, is in its loop or in a call of
-- the job's function, or is about to lock `mu` and count itself. `last_seq` and `my_seq` are as in
-- `worker_main`.
pub data Stage : Type 0 where
  looking : (last_seq : ℕ) → Stage
  asleep : (last_seq : ℕ) → Stage
  looping : (my_seq : ℕ) → Stage
  running : (my_seq i : ℕ) → Stage
  leaving : (my_seq : ℕ) → Stage

-- The calling thread is in its loop or in a call, is about to test `workers_done`, waits on `cv_done`,
-- or has returned.
pub data Caller : Type 0 where
  serving : Caller
  calling : ℕ → Caller
  testing : Caller
  blocked : Caller
  returned : Caller

-- `job` says that `current_job` is not NULL. `calls` lists the completed calls `fn(user, i)` of the
-- job, the last one first.
pub record Pool : Type 0 where
  pub total : ℕ
  pub next : ℕ
  pub job : Bool
  pub job_seq : ℕ
  pub workers_done : ℕ
  pub n_workers : ℕ
  pub workers : List Stage
  pub caller : Caller
  pub calls : List ℕ

-- The wait for a job.
unfoldable pub look : Pool → (k last_seq : ℕ) → Pool
look p k last_seq = record p {
  workers =
      set p.workers k
        (if not p.job || p.job_seq == last_seq then asleep last_seq else looping p.job_seq);
}

-- `i = atomic_fetch_add(&job->next, 1)`, and `break` if `i >= job->total`.
unfoldable pub fetch : Pool → (k my_seq : ℕ) → Pool
fetch p k my_seq = record p {
  next = u32 (p.next + 1);
  workers = set p.workers k (if leb p.total p.next then leaving my_seq else running my_seq p.next);
}

-- The return of `job->fn(job->user, i)`.
unfoldable pub complete : Pool → (k my_seq i : ℕ) → Pool
complete p k my_seq i = record p { workers = set p.workers k (looping my_seq); calls = i ∷ p.calls }

-- `pthread_cond_signal(&cv_done)`.
unfoldable pub signal_done : Caller → Caller
signal_done blocked = testing
signal_done serving = serving
signal_done (calling i) = calling i
signal_done testing = testing
signal_done returned = returned

-- The end of a round of `worker_main`.
unfoldable pub leave : Pool → (k my_seq : ℕ) → Pool
leave p k my_seq =
    let done = p.workers_done + 1 in
    record p {
      workers_done = done;
      caller = if done == p.n_workers then signal_done p.caller else p.caller;
      workers = set p.workers k (looking my_seq);
    }

unfoldable pub caller_fetch : Pool → Pool
caller_fetch p = record p {
  next = u32 (p.next + 1);
  caller = if leb p.total p.next then testing else calling p.next;
}

unfoldable pub caller_complete : Pool → ℕ → Pool
caller_complete p i = record p { caller = serving; calls = i ∷ p.calls }

-- The wait for the workers, and `current_job = NULL` behind it.
unfoldable pub caller_test : Pool → Pool
caller_test p =
    let waits = ltb p.workers_done p.n_workers in
    record p { job = if waits then p.job else false; caller = if waits then blocked else returned }

-- The steps that do work.
pub data Work (p : Pool) (q : Pool) : Type 0 where
  worker_looks : (k l : ℕ) → get_elem? p.workers k ≡ some (looking l) → q ≡ look p k l → Work p q
  worker_fetches : (k s : ℕ) → get_elem? p.workers k ≡ some (looping s) → q ≡ fetch p k s → Work p q
  worker_completes :
      (k s i : ℕ) → get_elem? p.workers k ≡ some (running s i) → q ≡ complete p k s i → Work p q
  worker_leaves : (k s : ℕ) → get_elem? p.workers k ≡ some (leaving s) → q ≡ leave p k s → Work p q
  caller_fetches : p.caller ≡ serving → q ≡ caller_fetch p → Work p q
  caller_completes : (i : ℕ) → p.caller ≡ calling i → q ≡ caller_complete p i → Work p q
  caller_tests : p.caller ≡ testing → q ≡ caller_test p → Work p q

unfoldable pub wake_worker : Pool → (k last_seq : ℕ) → Pool
wake_worker p k last_seq = record p { workers = set p.workers k (looking last_seq) }

unfoldable pub wake_caller : Pool → Pool
wake_caller p = record p { caller = testing }

-- `pthread_cond_wait` may also return without a signal.
pub data Step (p : Pool) (q : Pool) : Type 0 where
  works : Work p q → Step p q
  worker_wakes :
      (k l : ℕ) → get_elem? p.workers k ≡ some (asleep l) → q ≡ wake_worker p k l → Step p q
  caller_wakes : p.caller ≡ blocked → q ≡ wake_caller p → Step p q

pub data Reach (p : Pool) : Pool → Type 0 where
  here : Reach p p
  then_step : {q r : Pool} → Reach p q → Step q r → Reach p r

-- `pthread_cond_broadcast(&cv_go)`, for one worker.
unfoldable pub awaken : Stage → Stage
awaken (asleep l) = looking l
awaken (looking l) = looking l
awaken (looping s) = looping s
awaken (running s i) = running s i
awaken (leaving s) = leaving s

-- The job that `srapi_vm_threadpool_dispatch` publishes.
unfoldable pub publish : ℕ → Pool → Pool
publish tile_count p = record p {
  total = tile_count;
  next = 0;
  job = true;
  job_seq = u64 (p.job_seq + 1);
  workers_done = 0;
  workers = map awaken p.workers;
  caller = serving;
  calls = [];
}

abbrev pub has_returned : Caller → Bool
has_returned returned = true
has_returned serving = false
has_returned (calling i) = false
has_returned testing = false
has_returned blocked = false

-- How many workers `init_pool` starts for `sysconf(_SC_NPROCESSORS_ONLN)` processors, if all threads
-- start.
unfoldable pub desired_workers : ℕ → ℕ
desired_workers zero = 0
desired_workers (suc online) = if ltb 63 online then 63 else online

-- The globals after `init_pool`, for so many threads started.
unfoldable pub init_pool : ℕ → Pool
init_pool started = record {
  total = 0;
  next = 0;
  job = false;
  job_seq = 0;
  workers_done = 0;
  n_workers = started;
  workers = replicate started (looking 0);
  caller = returned;
  calls = [];
}

-- The loop that runs the tiles in the calling thread.
unfoldable pub serial : ℕ → ℕ → List ℕ → List ℕ
serial zero i calls = calls
serial (suc n) i calls = serial n (i + 1) (i ∷ calls)

-- `srapi_vm_threadpool_dispatch`, by the state in which it returns and the calls made by then.
pub data Dispatched (p : Pool) (tile_count : ℕ) (q : Pool) (calls : List ℕ) : Type 0 where
  no_tiles : tile_count ≡ 0 → q ≡ p → calls ≡ [] → Dispatched p tile_count q calls
  alone :
      (p.n_workers == 0 || tile_count == 1) ≡ true
      → q ≡ p
      → calls ≡ serial tile_count 0 []
      → Dispatched p tile_count q calls
  shared :
      (p.n_workers == 0 || tile_count == 1) ≡ false
      → Reach (publish tile_count p) q
      → has_returned q.caller ≡ true
      → calls ≡ q.calls
      → Dispatched p tile_count q calls
