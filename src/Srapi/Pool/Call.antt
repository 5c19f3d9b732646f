-- ===== src/Srapi/Pool/Call.antt =====
-- libs/srapi/src/vm/threadpool.c: the invariant of a job over the steps of the calling thread, and over
-- the one by which a worker counts itself.
use one_tool.Common.{
  ℕ, ◌+◌, ◌^◌, ◌≤◌, ◌<◌, true, false, some, ltb, leb, ◌==◌, get_elem?, set, ◌≡◌, refl, arith,
  Bool-cases, inl, inr,
}
use one_tool.Srapi.Pool.{
  looking, leaving, Caller, serving, calling, testing, blocked, returned, Pool, signal_done, leave,
  caller_fetch, caller_complete, caller_test, wake_caller, has_returned,
}
use one_tool.Srapi.Pool.Shares.{caller_runs, caller_past, is_blocked, Shares, next-wrap}
use one_tool.Srapi.Pool.Worker.{moves, kinds-le, kind_at}

-- A signal changes only that the caller waits.
signal_done_lem :
    (c : Caller)
    → ((i : ℕ) → caller_runs i (signal_done c) ≡ caller_runs i c)
      × (caller_past (signal_done c) ≡ caller_past c)
      × (has_returned (signal_done c) ≡ has_returned c)
      × (is_blocked (signal_done c) ≡ false)
unfolding signal_done
signal_done_lem serving = (λ i. refl, refl, refl, refl)
signal_done_lem (calling j) = (λ i. refl, refl, refl, refl)
signal_done_lem testing = (λ i. refl, refl, refl, refl)
signal_done_lem blocked = (λ i. refl, refl, refl, refl)
signal_done_lem returned = (λ i. refl, refl, refl, refl)

-- A worker that still leaves is not counted, so the caller has not returned.
pub leave-Shares :
    (p : Pool) (k t : ℕ)
    → get_elem? p.workers k ≡ some (leaving t)
    → Shares p
    → Shares (leave p k t)
unfolding leave
leave-Shares p k t at s =
    let seq = p.job_seq in
    let m = moves seq p.workers k (leaving t) (looking t) at in
    let kind = kind_at seq p.workers k (leaving t) (omega (arith, s.kinds, s.sized)) at in
    let same : (t == seq) ≡ true = ground (arith, kind) in
    let total = kinds-le seq (set p.workers k (looking t)) in
    let fewer : p.workers_done + 1 ≤ p.n_workers =
      ground (arith, m.idle_move, m.one_move, s.counted, s.sized, same, total) in
    let still : has_returned p.caller ≡ false = elim (Bool-cases (has_returned p.caller)) [
      | inl r ↦ let done = s.all_done r in absurd (omega arith)
      | inr r ↦ r
    ] in
    let (runs_same, past_same, home_same, awake) = signal_done_lem p.caller in
    elim (Bool-cases (p.workers_done + 1 == p.n_workers)) [
      | inl e ↦ rw e (record {
        once = λ i. ground (arith, m.runs_move i, s.once i, runs_same i);
        kinds = ground (arith, m.fresh_move, m.busy_move, m.idle_move, s.kinds, same);
        sized = omega (arith, m.one_move, s.sized);
        counted = ground (arith, m.idle_move, s.counted, same);
        close = ground (arith, m.past_move, s.close, same, past_same);
        over = λ h. ground (arith, m.past_move, s.over, same, past_same);
        has_job = rw home_same s.has_job;
        all_done = λ h. cc;
        waited_for = λ h. cc;
      })
      | inr e ↦ rw e (record {
        once = λ i. ground (arith, m.runs_move i, s.once i);
        kinds = ground (arith, m.fresh_move, m.busy_move, m.idle_move, s.kinds, same);
        sized = omega (arith, m.one_move, s.sized);
        counted = ground (arith, m.idle_move, s.counted, same);
        close = ground (arith, m.past_move, s.close, same);
        over = λ h. ground (arith, m.past_move, s.over, same);
        has_job = s.has_job;
        all_done = λ h. cc;
        waited_for = λ h. ground (arith, e, fewer);
      })
    ]

pub caller_fetch-Shares :
    (p : Pool)
    → p.total + p.n_workers + 2 < 2 ^ 32
    → p.caller ≡ serving
    → Shares p
    → Shares (caller_fetch p)
unfolding caller_fetch
caller_fetch-Shares p small stands s =
    let wrap = next-wrap p small s in
    elim (Bool-cases (leb p.total p.next)) [
      | inl e ↦
          rw (wrap, e)
            (record {
              once = λ i. (let was = rw stands at (s.once i) in ground (arith, was, e));
              kinds = s.kinds;
              sized = s.sized;
              counted = s.counted;
              close = (let was = rw stands at s.close in ground (arith, was));
              over = λ h. ground (arith, e);
              has_job = rw stands at s.has_job;
              all_done = λ h. cc;
              waited_for = λ h. cc;
            })
      | inr e ↦
          rw (wrap, e)
            (record {
              once = λ i. (let was = rw stands at (s.once i) in ground (arith, was, e));
              kinds = s.kinds;
              sized = s.sized;
              counted = s.counted;
              close = (let was = rw stands at s.close in ground (arith, was, e));
              over = λ h. (let was = rw stands at s.over in ground (arith, was, e));
              has_job = rw stands at s.has_job;
              all_done = λ h. cc;
              waited_for = λ h. cc;
            })
    ]

pub caller_complete-Shares :
    (p : Pool) (i : ℕ) → p.caller ≡ calling i → Shares p → Shares (caller_complete p i)
unfolding caller_complete
caller_complete-Shares p i stands s = record {
  once = λ j. (let was = rw stands at (s.once j) in ground (arith, was));
  kinds = s.kinds;
  sized = s.sized;
  counted = s.counted;
  close = rw stands at s.close;
  over = rw stands at s.over;
  has_job = rw stands at s.has_job;
  all_done = λ h. cc;
  waited_for = λ h. cc;
}

pub caller_test-Shares : (p : Pool) → p.caller ≡ testing → Shares p → Shares (caller_test p)
unfolding caller_test
caller_test-Shares p stands s =
    let full = kinds-le p.job_seq p.workers in
    elim (Bool-cases (ltb p.workers_done p.n_workers)) [
      | inl e ↦ rw e (record {
        once = λ j. rw stands at (s.once j);
        kinds = s.kinds;
        sized = s.sized;
        counted = s.counted;
        close = rw stands at s.close;
        over = rw stands at s.over;
        has_job = rw stands at s.has_job;
        all_done = λ h. cc;
        waited_for = λ h. ground (arith, e);
      })
      | inr e ↦ rw e (record {
        once = λ j. rw stands at (s.once j);
        kinds = s.kinds;
        sized = s.sized;
        counted = s.counted;
        close = rw stands at s.close;
        over = rw stands at s.over;
        has_job = refl;
        all_done = λ h. ground (arith, e, full, s.counted, s.sized);
        waited_for = λ h. cc;
      })
    ]

pub wake_caller-Shares : (p : Pool) → p.caller ≡ blocked → Shares p → Shares (wake_caller p)
unfolding wake_caller
wake_caller-Shares p stands s = record {
  once = λ j. rw stands at (s.once j);
  kinds = s.kinds;
  sized = s.sized;
  counted = s.counted;
  close = rw stands at s.close;
  over = rw stands at s.over;
  has_job = rw stands at s.has_job;
  all_done = λ h. cc;
  waited_for = λ h. cc;
}
