-- ===== src/Jobs.antt =====
-- backend/internal/jobs/executor.go: the executor of background jobs. A job's goroutine is a phase;
-- the goroutines, `Submit` and `Shutdown` take turns in any order. The id of a job is a number, and
-- the store's table is a function of it; a call of the store may fail.
pub mod Invariant
pub mod Keeps
pub mod Safety
pub mod Drain
use pal_panel_host_wine.Prelude.{
  ℕ, zero, suc, ◌+◌, ◌-◌, ◌<◌, ◌≡◌, Bool, true, false, not, ◌&&◌, ◌||◌, Bytes, ltb, if◌then◌else◌,
  update,
}

pub data Class : Type 0 where
  general lifecycle : Class

-- Any text can stand in the table.
pub data Status : Type 0 where
  queued waiting running completed failed cancelled : Status
  other : Bytes → Status

pub data ErrorCode : Type 0 where
  no_code interrupted_by_restart interrupted_by_shutdown worker_panic missing_terminal_state :
      ErrorCode
  reported : Bytes → ErrorCode

pub record Job : Type 0 where
  pub status : Status
  pub code : ErrorCode

-- Where the goroutine of a job is: before `acquire`, in its work, or at its end. At the end, whether
-- the store has accepted the calls of that goroutine's own bookkeeping.
pub data Phase : Type 0 where
  absent : Phase
  acquiring working : Class → Phase
  ended : Bool → Phase

-- `in_general` is the number of elements in the channel `general`, `held` whether the mutex
-- `lifecycle` is locked, `stopped` whether the context is cancelled.
pub record Executor : Type 0 where
  pub accepting : Bool
  pub stopped : Bool
  pub in_general : ℕ
  pub held : Bool
  pub phase : ℕ → Phase
  pub table : ℕ → Job
  pub next : ℕ

-- The capacity of `general`.
abbrev pub capacity : ℕ → ℕ
capacity max_concurrent = if ltb max_concurrent 1 then 4 else max_concurrent

abbrev pub new_executor : Executor
new_executor = record {
  accepting = true;
  stopped = false;
  in_general = 0;
  held = false;
  phase = λ _. absent;
  table = λ _. record { status = queued; code = no_code };
  next = 0;
}

unfoldable pub is_terminal : Status → Bool
is_terminal completed = true
is_terminal failed = true
is_terminal cancelled = true
is_terminal _ = false

-- `FailIncompleteJobs` on a row, as `Reconcile` calls it when the program starts.
unfoldable pub reconcile : Job → Job
reconcile job = elim job.status [
  | queued ↦ record { status = failed; code = interrupted_by_restart }
  | waiting ↦ record { status = failed; code = interrupted_by_restart }
  | running ↦ record { status = failed; code = interrupted_by_restart }
  | _ ↦ job
]

-- `updateFailure`; the store has accepted it or not.
unfoldable pub update_failure : Bool → ErrorCode → Job → Job
update_failure accepted code job = if accepted then record { status = failed; code = code } else job

-- `ensureTerminal`; without the store's answers it leaves the row alone.
unfoldable pub ensure_terminal : Bool → Bool → Job → Job
ensure_terminal accepted stopped job =
    if is_terminal job.status
    then job
    else update_failure accepted
        (if stopped then interrupted_by_shutdown else missing_terminal_state) job

-- The deferred calls behind the work, which has returned or panicked.
unfoldable pub after_work : Bool → Bool → Bool → Job → Job
after_work panicked accepted stopped job =
    if panicked
    then update_failure accepted worker_panic job
    else ensure_terminal accepted stopped job

-- `Submit` while the executor accepts, when the store has created the job.
unfoldable pub submit : Class → Executor → Executor
submit c e = record e {
  phase = update e.phase e.next (acquiring c);
  table = update e.table e.next (record { status = queued; code = no_code });
  next = suc e.next;
}

-- `acquire` that succeeds.
unfoldable pub acquire : ℕ → Class → Executor → Executor
acquire i general e = record e {
  in_general = suc e.in_general;
  phase = update e.phase i (working general);
}
acquire i lifecycle e = record e { held = true; phase = update e.phase i (working lifecycle) }

-- Whether `acquire` can go through now: a free element, or the mutex and a live context.
unfoldable pub can_acquire : ℕ → Class → Executor → Bool
can_acquire max general e = ltb e.in_general max
can_acquire max lifecycle e = not e.held && not e.stopped

-- Whether `acquire` can return false now: behind the mutex, once the context is cancelled.
unfoldable pub can_refuse : Class → Executor → Bool
can_refuse general e = e.stopped
can_refuse lifecycle e = not e.held && e.stopped

-- The goroutine whose `acquire` has returned false.
unfoldable pub refuse : ℕ → Bool → Executor → Executor
refuse i accepted e = record e {
  phase = update e.phase i (ended accepted);
  table = update e.table i (update_failure accepted interrupted_by_shutdown (e.table i));
}

-- `Update` and `UpdateWithCode` by the work, which may write any status.
unfoldable pub report : ℕ → Job → Executor → Executor
report i job e = record e { table = update e.table i job }

unfoldable pub release : Class → Executor → Executor
release general e = record e { in_general = e.in_general - 1 }
release lifecycle e = record e { held = false }

-- The rest of `run` behind the work.
unfoldable pub finish : ℕ → Class → Bool → Bool → Executor → Executor
finish i c panicked accepted e = release c (record e {
  phase = update e.phase i (ended accepted);
  table = update e.table i (after_work panicked accepted e.stopped (e.table i));
})

-- The two halves of `Shutdown`: no more jobs; later the context is cancelled, because all
-- goroutines have ended or because the caller waits no longer.
unfoldable pub close : Executor → Executor
close e = record e { accepting = false }

unfoldable pub stop : Executor → Executor
stop e = record e { stopped = true }

-- One turn of the executor with `max` elements in `general`.
pub data Step (max : ℕ) : Executor → Executor → Type 0 where
  submits : {e : Executor} (c : Class) → e.accepting ≡ true → Step max e (submit c e)
  acquires :
      {e : Executor} (i : ℕ) (c : Class)
      → e.phase i ≡ acquiring c
      → can_acquire max c e ≡ true
      → Step max e (acquire i c e)
  refuses :
      {e : Executor} (i : ℕ) (c : Class) (accepted : Bool)
      → e.phase i ≡ acquiring c
      → can_refuse c e ≡ true
      → Step max e (refuse i accepted e)
  reports :
      {e : Executor} (i : ℕ) (c : Class) (job : Job)
      → e.phase i ≡ working c
      → Step max e (report i job e)
  finishes :
      {e : Executor} (i : ℕ) (c : Class) (panicked accepted : Bool)
      → e.phase i ≡ working c
      → Step max e (finish i c panicked accepted e)
  closes : {e : Executor} → Step max e (close e)
  stops : {e : Executor} → e.accepting ≡ false → Step max e (stop e)

-- The turns taken from one state to another, the last one outermost.
pub data Steps (max : ℕ) : Executor → Executor → Type 0 where
  here : {e : Executor} → Steps max e e
  later : {e f g : Executor} → Steps max e f → Step max f g → Steps max e g

abbrev pub Reach : ℕ → Executor → Type 0
Reach max e = Steps max new_executor e
