-- ===== src/Srapi/Pool/Worker.antt =====
-- libs/srapi/src/vm/threadpool.c: the invariant of a job over the steps of a worker.
use one_tool.Common.{
  ℕ, zero, suc, ◌+◌, ◌^◌, ◌≤◌, ◌<◌, true, false, not, List, [], ◌∷◌, some, leb, ◌==◌, ◌||◌,
  get_elem?, set, ◌≡◌, arith, Bool-cases, inl, inr,
}
use one_tool.Srapi.Pool.{
  Stage, looking, asleep, looping, running, leaving, Pool, look, fetch, complete, wake_worker,
  has_returned,
}
use one_tool.Srapi.Pool.Shares.{
  sum_of, sum_of-set, runs, unseen, busy, idle, one, past, Shares, next-wrap,
}

-- How the sums change when a worker goes from one stage to another.
pub record Moves (seq : ℕ) (stages after : List Stage) (old new : Stage) : Type 0 where
  pub runs_move : (i : ℕ) → sum_of (runs i) after + runs i old ≡ sum_of (runs i) stages + runs i new
  pub fresh_move :
      sum_of (unseen seq) after + unseen seq old ≡ sum_of (unseen seq) stages + unseen seq new
  pub busy_move : sum_of (busy seq) after + busy seq old ≡ sum_of (busy seq) stages + busy seq new
  pub idle_move : sum_of (idle seq) after + idle seq old ≡ sum_of (idle seq) stages + idle seq new
  pub past_move : sum_of (past seq) after + past seq old ≡ sum_of (past seq) stages + past seq new
  pub one_move : sum_of one after ≡ sum_of one stages

pub moves :
    (seq : ℕ) (stages : List Stage) (k : ℕ) (old new : Stage)
    → get_elem? stages k ≡ some old
    → Moves seq stages (set stages k new) old new
moves seq stages k old new at = record {
  runs_move = λ i. sum_of-set (runs i) stages k old new at;
  fresh_move = sum_of-set (unseen seq) stages k old new at;
  busy_move = sum_of-set (busy seq) stages k old new at;
  idle_move = sum_of-set (idle seq) stages k old new at;
  past_move = sum_of-set (past seq) stages k old new at;
  one_move = omega (arith, sum_of-set one stages k old new at);
}

pub kinds-le :
    (seq : ℕ) (stages : List Stage)
    → sum_of (unseen seq) stages + sum_of (busy seq) stages + sum_of (idle seq) stages
      ≤ sum_of one stages
kinds-le seq [] = omega arith
kinds-le seq (s ∷ stages) = ground (arith, kinds-le seq stages)

-- Where the kinds make up all workers, each worker is of one.
pub kind_at :
    (seq : ℕ) (stages : List Stage) (k : ℕ) (s : Stage)
    → sum_of one stages
      ≤ sum_of (unseen seq) stages + sum_of (busy seq) stages + sum_of (idle seq) stages
    → get_elem? stages k ≡ some s
    → unseen seq s + busy seq s + idle seq s ≡ 1
kind_at seq [] k s all at = cc
kind_at seq (t ∷ stages) zero s all at =
    let same : t ≡ s = cc in
    let rest = kinds-le seq stages in rw (← same) (ground (arith, all, rest))
kind_at seq (t ∷ stages) (suc k) s all at =
    let rest = kinds-le seq stages in kind_at seq stages k s (ground (arith, all, rest)) at

pub look-Shares :
    (p : Pool) (k l : ℕ) → get_elem? p.workers k ≡ some (looking l) → Shares p → Shares (look p k l)
unfolding look
look-Shares p k l at s =
    let seq = p.job_seq in
    elim (Bool-cases (not p.job || seq == l)) [
      | inl e ↦
          let m = moves seq p.workers k (looking l) (asleep l) at in
          let same : (l == seq) ≡ true = elim (Bool-cases (has_returned p.caller)) [
            | inl r ↦
                let done = s.all_done r in ground (arith, m.fresh_move, s.kinds, s.counted, done)
            | inr r ↦
                let published : p.job ≡ true = ground (arith, s.has_job, r) in
                ground (arith, e, published)
          ] in
          rw e (record {
            once = λ i. ground (arith, m.runs_move i, s.once i);
            kinds = ground (arith, m.fresh_move, m.busy_move, m.idle_move, s.kinds, same);
            sized = omega (arith, m.one_move, s.sized);
            counted = ground (arith, m.idle_move, s.counted, same);
            close = ground (arith, m.past_move, s.close, same);
            over = λ h. ground (arith, m.past_move, s.over, same);
            has_job = s.has_job;
            all_done = s.all_done;
            waited_for = s.waited_for;
          })
      | inr e ↦
          let m = moves seq p.workers k (looking l) (looping seq) at in
          let other : (l == seq) ≡ false = ground arith in
          rw e (record {
            once = λ i. ground (arith, m.runs_move i, s.once i);
            kinds = ground (arith, m.fresh_move, m.busy_move, m.idle_move, s.kinds, other);
            sized = omega (arith, m.one_move, s.sized);
            counted = ground (arith, m.idle_move, s.counted, other);
            close = ground (arith, m.past_move, s.close, other);
            over = λ h. ground (arith, m.past_move, s.over, other);
            has_job = s.has_job;
            all_done = s.all_done;
            waited_for = s.waited_for;
          })
    ]

pub wake-Shares :
    (p : Pool) (k l : ℕ)
    → get_elem? p.workers k ≡ some (asleep l)
    → Shares p
    → Shares (wake_worker p k l)
unfolding wake_worker
wake-Shares p k l at s =
    let seq = p.job_seq in
    let m = moves seq p.workers k (asleep l) (looking l) at in
    let kind = kind_at seq p.workers k (asleep l) (omega (arith, s.kinds, s.sized)) at in
    let same : (l == seq) ≡ true = ground (arith, kind) in
    record {
      once = λ i. ground (arith, m.runs_move i, s.once i);
      kinds = ground (arith, m.fresh_move, m.busy_move, m.idle_move, s.kinds, same);
      sized = omega (arith, m.one_move, s.sized);
      counted = ground (arith, m.idle_move, s.counted, same);
      close = ground (arith, m.past_move, s.close, same);
      over = λ h. ground (arith, m.past_move, s.over, same);
      has_job = s.has_job;
      all_done = s.all_done;
      waited_for = s.waited_for;
    }

pub fetch-Shares :
    (p : Pool) (k t : ℕ)
    → p.total + p.n_workers + 2 < 2 ^ 32
    → get_elem? p.workers k ≡ some (looping t)
    → Shares p
    → Shares (fetch p k t)
unfolding fetch
fetch-Shares p k t small at s =
    let seq = p.job_seq in
    let wrap = next-wrap p small s in
    elim (Bool-cases (leb p.total p.next)) [
      | inl e ↦
          let m = moves seq p.workers k (looping t) (leaving t) at in
          rw (wrap, e)
            (record {
              once = λ i. ground (arith, m.runs_move i, s.once i, e);
              kinds = ground (arith, m.fresh_move, m.busy_move, m.idle_move, s.kinds);
              sized = omega (arith, m.one_move, s.sized);
              counted = ground (arith, m.idle_move, s.counted);
              close = ground (arith, m.past_move, s.close);
              over = λ h. ground (arith, e);
              has_job = s.has_job;
              all_done = s.all_done;
              waited_for = s.waited_for;
            })
      | inr e ↦
          let m = moves seq p.workers k (looping t) (running t p.next) at in
          rw (wrap, e)
            (record {
              once = λ i. ground (arith, m.runs_move i, s.once i, e);
              kinds = ground (arith, m.fresh_move, m.busy_move, m.idle_move, s.kinds);
              sized = omega (arith, m.one_move, s.sized);
              counted = ground (arith, m.idle_move, s.counted);
              close = ground (arith, m.past_move, s.close, e);
              over = λ h. ground (arith, m.past_move, s.over, e);
              has_job = s.has_job;
              all_done = s.all_done;
              waited_for = s.waited_for;
            })
    ]

pub complete-Shares :
    (p : Pool) (k t i : ℕ)
    → get_elem? p.workers k ≡ some (running t i)
    → Shares p
    → Shares (complete p k t i)
unfolding complete
complete-Shares p k t i at s =
    let m = moves p.job_seq p.workers k (running t i) (looping t) at in
    record {
      once = λ j. ground (arith, m.runs_move j, s.once j);
      kinds = ground (arith, m.fresh_move, m.busy_move, m.idle_move, s.kinds);
      sized = omega (arith, m.one_move, s.sized);
      counted = ground (arith, m.idle_move, s.counted);
      close = ground (arith, m.past_move, s.close);
      over = λ h. ground (arith, m.past_move, s.over);
      has_job = s.has_job;
      all_done = s.all_done;
      waited_for = s.waited_for;
    }
