-- ===== src/Srapi/Pool/Progress.antt =====
-- libs/srapi/src/vm/threadpool.c: the steps that are left until `srapi_vm_threadpool_dispatch` returns.
use one_tool.Common.{
  ℕ, suc, ◌+◌, ◌-◌, ◌*◌, ◌^◌, ◌≤◌, ◌<◌, true, false, not, List, [], ◌∷◌, some, ltb, leb, ◌==◌, ◌||◌,
  if◌then◌else◌, get_elem?, ◌≡◌, ◌⊎◌, refl, arith, Bool-cases, inl, inr,
}
use one_tool.Srapi.Pool.{
  Stage, looking, asleep, looping, running, leaving, Caller, serving, calling, testing, blocked,
  returned, Pool, look, fetch, complete, signal_done, leave, caller_fetch, caller_complete,
  caller_test, Work, worker_looks, worker_fetches, worker_completes, worker_leaves, caller_fetches,
  caller_completes, caller_tests, Reach, has_returned, publish,
}
use one_tool.Srapi.Pool.Shares.{sum_of, sum_of-set, unseen, busy, is_blocked, Shares, next-wrap}
use one_tool.Srapi.Pool.Worker.{kind_at}
use one_tool.Srapi.Pool.Once.{Reach-Shares, IsResting, publish-Shares, publish-same}

-- How many steps a thread still has to make, at least if no more tiles are left.
abbrev steps_left : ℕ → Stage → ℕ
steps_left seq (looking l) = if l == seq then 1 else 6
steps_left seq (asleep l) = 0
steps_left seq (looping s) = 4
steps_left seq (running s i) = 5
steps_left seq (leaving s) = 3

abbrev caller_left : Caller → ℕ
caller_left serving = 2
caller_left (calling i) = 3
caller_left testing = 1
caller_left blocked = 0
caller_left returned = 0

abbrev pub weight : Pool → ℕ
weight p = 2 * (p.total - p.next) + sum_of (steps_left p.job_seq) p.workers + caller_left p.caller

signal_done-left : (c : Caller) → caller_left (signal_done c) ≤ caller_left c + 1
unfolding signal_done
signal_done-left serving = omega arith
signal_done-left (calling i) = omega arith
signal_done-left testing = omega arith
signal_done-left blocked = omega arith
signal_done-left returned = omega arith

-- A worker that has not seen the job sees it.
look-weight :
    (p : Pool) (k l : ℕ) → get_elem? p.workers k ≡ some (looking l) → weight (look p k l) < weight p
unfolding look
look-weight p k l at =
    let seq = p.job_seq in
    elim (Bool-cases (not p.job || seq == l)) [
      | inl e ↦
          let m = sum_of-set (steps_left seq) p.workers k (looking l) (asleep l) at in
          rw e (ground (arith, m))
      | inr e ↦
          let m = sum_of-set (steps_left seq) p.workers k (looking l) (looping seq) at in
          let other : (l == seq) ≡ false = ground arith in rw e (ground (arith, m, other))
    ]

leave-weight :
    (p : Pool) (k t : ℕ)
    → get_elem? p.workers k ≡ some (leaving t)
    → Shares p
    → weight (leave p k t) < weight p
unfolding leave
leave-weight p k t at s =
    let seq = p.job_seq in
    let m = sum_of-set (steps_left seq) p.workers k (leaving t) (looking t) at in
    let kind = kind_at seq p.workers k (leaving t) (omega (arith, s.kinds, s.sized)) at in
    let same : (t == seq) ≡ true = ground (arith, kind) in
    let signal = signal_done-left p.caller in
    elim (Bool-cases (p.workers_done + 1 == p.n_workers)) [
      | inl e ↦ rw e (ground (arith, m, same, signal))
      | inr e ↦ rw e (ground (arith, m, same))
    ]

Work-weight :
    {p q : Pool} → p.total + p.n_workers + 2 < 2 ^ 32 → Shares p → Work p q → weight q < weight p
unfolding fetch complete caller_fetch caller_complete caller_test
Work-weight {p} small s (worker_looks k l at e) = rw e (look-weight p k l at)
Work-weight {p} small s (worker_leaves k t at e) = rw e (leave-weight p k t at s)
Work-weight {p} small s (worker_fetches k t at e) =
    let seq = p.job_seq in
    let wrap = next-wrap p small s in
    elim (Bool-cases (leb p.total p.next)) [
      | inl gone ↦
          let m = sum_of-set (steps_left seq) p.workers k (looping t) (leaving t) at in
          rw (e, wrap, gone) (ground (arith, m))
      | inr more ↦
          let m = sum_of-set (steps_left seq) p.workers k (looping t) (running t p.next) at in
          rw (e, wrap, more) (ground (arith, m))
    ]
Work-weight {p} small s (worker_completes k t i at e) =
    let m = sum_of-set (steps_left p.job_seq) p.workers k (running t i) (looping t) at in
    rw e (omega (arith, m))
Work-weight {p} small s (caller_fetches at e) =
    let wrap = next-wrap p small s in
    elim (Bool-cases (leb p.total p.next)) [
      | inl gone ↦ rw (e, wrap, gone, at) (ground arith)
      | inr more ↦ rw (e, wrap, more, at) (ground arith)
    ]
Work-weight {p} small s (caller_completes i at e) = rw (e, at) (omega arith)
Work-weight {p} small s (caller_tests at e) = elim (Bool-cases (ltb p.workers_done p.n_workers)) [
  | inl waits ↦ rw (e, waits, at) (omega arith)
  | inr done ↦ rw (e, done, at) (omega arith)
]

-- A worker that has not counted itself, and where it stands.
data Ready (stages : List Stage) : Type 0 where
  ready_looking : (k l : ℕ) → get_elem? stages k ≡ some (looking l) → Ready stages
  ready_looping : (k s : ℕ) → get_elem? stages k ≡ some (looping s) → Ready stages
  ready_running : (k s i : ℕ) → get_elem? stages k ≡ some (running s i) → Ready stages
  ready_leaving : (k s : ℕ) → get_elem? stages k ≡ some (leaving s) → Ready stages

find-Ready :
    (seq : ℕ) (stages : List Stage)
    → 0 < sum_of (unseen seq) stages + sum_of (busy seq) stages
    → Ready stages
find-Ready seq [] h = absurd (omega arith)
find-Ready seq (looking l ∷ stages) h = ready_looking 0 l refl
find-Ready seq (looping s ∷ stages) h = ready_looping 0 s refl
find-Ready seq (running s i ∷ stages) h = ready_running 0 s i refl
find-Ready seq (leaving s ∷ stages) h = ready_leaving 0 s refl
find-Ready seq (asleep l ∷ stages) h = elim (find-Ready seq stages (omega arith)) [
  | ready_looking k l' at ↦ ready_looking (suc k) l' at
  | ready_looping k s at ↦ ready_looping (suc k) s at
  | ready_running k s i at ↦ ready_running (suc k) s i at
  | ready_leaving k s at ↦ ready_leaving (suc k) s at
]

Ready-Work : (p : Pool) → Ready p.workers → (q : Pool) × Work p q
Ready-Work p (ready_looking k l at) = (look p k l, worker_looks k l at refl)
Ready-Work p (ready_looping k s at) = (fetch p k s, worker_fetches k s at refl)
Ready-Work p (ready_running k s i at) = (complete p k s i, worker_completes k s i at refl)
Ready-Work p (ready_leaving k s at) = (leave p k s, worker_leaves k s at refl)

data Standing (c : Caller) : Type 0 where
  is_serving : c ≡ serving → Standing c
  is_calling : (i : ℕ) → c ≡ calling i → Standing c
  is_testing : c ≡ testing → Standing c
  waits : is_blocked c ≡ true → Standing c
  is_home : has_returned c ≡ true → Standing c

standing : (c : Caller) → Standing c
standing serving = is_serving refl
standing (calling i) = is_calling i refl
standing testing = is_testing refl
standing blocked = waits refl
standing returned = is_home refl

-- A caller that waits is waited for by a worker that has work to do.
progress : (p : Pool) → Shares p → (has_returned p.caller ≡ true) ⊎ ((q : Pool) × Work p q)
progress p s = elim (standing p.caller) [
  | is_serving e ↦ inr (caller_fetch p, caller_fetches e refl)
  | is_calling i e ↦ inr (caller_complete p i, caller_completes i e refl)
  | is_testing e ↦ inr (caller_test p, caller_tests e refl)
  | waits e ↦
      let fewer = s.waited_for e in
      inr (Ready-Work p (find-Ready p.job_seq p.workers (omega (arith, s.kinds, s.counted))))
  | is_home e ↦ inl e
]

-- With fewer than 2^32 tiles and workers together, in every state that a job published at rest reaches,
-- either `srapi_vm_threadpool_dispatch` has returned or some thread can take a step that is not a
-- wakeup without signal, and each such step lowers a weight: no signal is missed, and the wait ends.
pub Reach-progress :
    (p : Pool) (tile_count : ℕ) (q : Pool)
    → tile_count + p.n_workers + 2 < 2 ^ 32
    → IsResting p
    → Reach (publish tile_count p) q
    → ((has_returned q.caller ≡ true) ⊎ ((r : Pool) × Work q r))
      × ((r : Pool) → Work q r → weight r < weight q)
Reach-progress p tile_count q small rest reach =
    let (total, sizes, seq) = publish-same p tile_count in
    let (s, (kept, kept_sizes, kept_seq)) =
      Reach-Shares (omega arith) (publish-Shares p tile_count rest) reach in
    (progress q s, λ r work. Work-weight (omega arith) s work)
