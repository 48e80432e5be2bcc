-- ===== src/Funcs/Schedule.antt =====
-- ScheduleJobWithTrigger of pkg/controller/funcs.go: a goroutine that runs the job at each receive from an unbuffered
-- channel, one that sends to it after the delay and then after each period, and the callers of the trigger function,
-- who send too. A step is taken by any of them, in any order.
use sealed_secrets.Base.{ℕ, suc, ◌+◌, ◌≤◌, ◌≡◌}

pub data Worker : Type 0 where
  receiving running : Worker

pub data Timer : Type 0 where
  sleeping_until : ℕ → Timer
  sending : Timer

-- The goroutines, the clock, and what has happened so far.
pub record Schedule : Type 0 where
  pub now : ℕ
  pub worker : Worker
  pub timer : Timer
  pub callers : ℕ
  pub ticks : ℕ
  pub triggers : ℕ
  pub started : ℕ
  pub finished : ℕ

-- The call of ScheduleJobWithTrigger at a time.
abbrev pub schedule_job_with_trigger : ℕ → ℕ → Schedule
schedule_job_with_trigger start initial_delay = record {
  now = start;
  worker = receiving;
  timer = sleeping_until (start + initial_delay);
  callers = 0;
  ticks = 0;
  triggers = 0;
  started = 0;
  finished = 0;
}

pub data Step (period : ℕ) (s : Schedule) : Schedule → Type 0 where
  pass : (d : ℕ) → Step period s (record s { now = s.now + d })
  wake :
      (u : ℕ)
      → s.timer ≡ sleeping_until u
      → u ≤ s.now
      → Step period s (record s { timer = sending })
  -- The timer's send is received.
  tick :
      s.timer ≡ sending
      → s.worker ≡ receiving
      → Step period s (record s {
        worker = running;
        timer = sleeping_until (s.now + period);
        ticks = suc s.ticks;
        started = suc s.started;
      })
  call : Step period s (record s { callers = suc s.callers })
  -- A caller's send is received.
  trigger :
      (n : ℕ)
      → s.callers ≡ suc n
      → s.worker ≡ receiving
      → Step period s (record s {
        worker = running;
        callers = n;
        triggers = suc s.triggers;
        started = suc s.started;
      })
  finish :
      s.worker ≡ running
      → Step period s (record s { worker = receiving; finished = suc s.finished })

pub data Reach (start initial_delay period : ℕ) : Schedule → Type 0 where
  begin : Reach start initial_delay period (schedule_job_with_trigger start initial_delay)
  after :
      {s t : Schedule}
      → Reach start initial_delay period s
      → Step period s t
      → Reach start initial_delay period t
