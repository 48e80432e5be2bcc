-- ===== src/Funcs/Pace.antt =====
-- The jobs of a schedule never overlap, and the timer keeps its pace.
use sealed_secrets.Base.{ℕ, zero, suc, ◌+◌, ◌≤◌, ◌≡◌, refl, arith}
use sealed_secrets.Funcs.Schedule.{
  Worker, receiving, running, Timer, sleeping_until, sending, Schedule, Step, pass, wake, tick,
  call, trigger, finish, Reach, begin, after,
}

-- The earliest time for a tick, by its number from 0.
abbrev pub due : ℕ → ℕ → ℕ → ℕ
due first period zero = first
due first period (suc n) = due first period n + period

abbrev pub jobs_at_work : Worker → ℕ
jobs_at_work receiving = 0
jobs_at_work running = 1

-- The next tick is not early.
abbrev pub NotEarly : ℕ → ℕ → Timer → Type 0
NotEarly earliest now (sleeping_until u) = earliest ≤ u
NotEarly earliest now sending = earliest ≤ now

abbrev pub TickedInTime : ℕ → ℕ → ℕ → ℕ → Type 0
TickedInTime first period now zero = Unit
TickedInTime first period now (suc n) = due first period n ≤ now

pub record IsPaced (first period : ℕ) (s : Schedule) : Type 0 where
  pub each_once : s.started ≡ s.ticks + s.triggers
  pub one_at_a_time : s.started ≡ s.finished + jobs_at_work s.worker
  pub not_early : NotEarly (due first period s.ticks) s.now s.timer
  pub in_time : TickedInTime first period s.now s.ticks

NotEarly-later :
    (earliest now d : ℕ) (t : Timer) → NotEarly earliest now t → NotEarly earliest (now + d) t
NotEarly-later earliest now d (sleeping_until u) h = h
NotEarly-later earliest now d sending h = omega (arith, h)

TickedInTime-later :
    (first period now d n : ℕ)
    → TickedInTime first period now n
    → TickedInTime first period (now + d) n
TickedInTime-later first period now d zero h = tt
TickedInTime-later first period now d (suc n) h = omega (arith, h)

Step-IsPaced :
    (first period : ℕ) (s t : Schedule)
    → Step period s t
    → IsPaced first period s
    → IsPaced first period t
Step-IsPaced first period s _ (pass d) h = record {
  each_once = h.each_once;
  one_at_a_time = h.one_at_a_time;
  not_early = NotEarly-later _ _ d s.timer h.not_early;
  in_time = TickedInTime-later first period s.now d s.ticks h.in_time;
}
Step-IsPaced first period s _ (wake u e le) h =
    let early : due first period s.ticks ≤ u = rw e at h.not_early in
    record {
      each_once = h.each_once;
      one_at_a_time = h.one_at_a_time;
      not_early = omega (arith, early, le);
      in_time = h.in_time;
    }
Step-IsPaced first period s _ (tick e idle) h =
    let early : due first period s.ticks ≤ s.now = rw e at h.not_early in
    let none_at_work : s.started ≡ s.finished + 0 = rw idle at h.one_at_a_time in
    record {
      each_once = omega (arith, h.each_once);
      one_at_a_time = omega (arith, none_at_work);
      not_early = omega (arith, early);
      in_time = early;
    }
Step-IsPaced first period s _ call h = record {
  each_once = h.each_once;
  one_at_a_time = h.one_at_a_time;
  not_early = h.not_early;
  in_time = h.in_time;
}
Step-IsPaced first period s _ (trigger n e idle) h =
    let none_at_work : s.started ≡ s.finished + 0 = rw idle at h.one_at_a_time in
    record {
      each_once = omega (arith, h.each_once);
      one_at_a_time = omega (arith, none_at_work);
      not_early = h.not_early;
      in_time = h.in_time;
    }
Step-IsPaced first period s _ (finish e) h =
    let one_at_work : s.started ≡ s.finished + 1 = rw e at h.one_at_a_time in
    record {
      each_once = h.each_once;
      one_at_a_time = omega (arith, one_at_work);
      not_early = h.not_early;
      in_time = h.in_time;
    }

-- However the goroutines of ScheduleJobWithTrigger and the callers of its trigger take their steps:
-- each tick of the timer and each trigger that was received has started one job, all jobs but the one
-- at work are finished, so that no two overlap, and no tick has come before the initial delay and a
-- period for each tick before it have passed.
pub Reach-IsPaced :
    (start initial_delay period : ℕ) (s : Schedule)
    → Reach start initial_delay period s
    → IsPaced (start + initial_delay) period s
Reach-IsPaced start initial_delay period _ begin = record {
  each_once = refl;
  one_at_a_time = refl;
  not_early = omega arith;
  in_time = tt;
}
Reach-IsPaced start initial_delay period _ (after {s} {t} r step) =
    Step-IsPaced (start + initial_delay) period s t step
      (Reach-IsPaced start initial_delay period s r)
