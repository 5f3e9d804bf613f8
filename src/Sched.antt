-- ===== src/Sched.antt =====
-- kernel/tsk/sched.c: the tasks in a singly linked list, and the round robin over it.
pub mod Chain
pub mod RoundRobin
mod Tests
use mathlib.Core.Option
use gewodsys.Base.{
  ℕ, zero, suc, ◌+◌, ◌%◌, Bool, Option, none, some, List, [], ◌∷◌, map, ◌==◌, if◌then◌else◌, word64,
}

-- `Task`; a name and an entry are addresses.
pub record Task : Type 0 where
  pub pid : ℕ
  pub state : ℕ
  pub name : ℕ
  pub entry : ℕ
  pub memory : ℕ
  pub rip : ℕ
  pub rsp : ℕ
  pub rbp : ℕ
  pub next : ℕ

abbrev pub zero_task : Task
zero_task = record {
  pid = 0;
  state = 0;
  name = 0;
  entry = 0;
  memory = 0;
  rip = 0;
  rsp = 0;
  rbp = 0;
  next = 0;
}

-- The task at each address, the variables `kTasks`, `kLastTask`, `kTask` and `kNextPid`, and CR3.
pub record Sched : Type 0 where
  pub task : ℕ → Task
  pub tasks : ℕ
  pub last_task : ℕ
  pub current : ℕ
  pub next_pid : ℕ
  pub cr3 : ℕ

unfoldable pub update : ℕ → Task → (ℕ → Task) → ℕ → Task
update p t tasks q = if q == p then t else tasks q

-- The task goes behind the last one.
unfoldable pub link : ℕ → Sched → Sched
unfolding update
link p s = if s.tasks == 0 then record s { tasks = p; last_task = p } else record s {
  task = update s.last_task (record (s.task s.last_task) { next = p }) s.task;
  last_task = p;
}

-- `TskCreateTask`; `p` is what `kmalloc` returned.
unfoldable pub create_task : ℕ → ℕ → ℕ → Sched → Sched
unfolding link update
create_task p name entry s =
    let s' = link p (record s { task = update p zero_task s.task }) in
    record s' {
      task = update p (record (s'.task p) { pid = s.next_pid; name = name; entry = entry }) s'.task;
      next_pid = (s.next_pid + 1) % word64;
    }

-- `TskCreateKernelTask`
unfoldable pub create_kernel_task : ℕ → ℕ → ℕ → Sched → Sched
unfolding update
create_kernel_task p name entry s =
    let s' = create_task p name entry s in
    record s' { task = update p (record (s'.task p) { memory = s'.cr3 }) s'.task }

-- `TskSchedule`
unfoldable pub schedule : Sched → Sched
schedule s =
    if s.current == 0
    then record s { current = s.tasks }
    else let next = (s.task s.current).next in
      let chosen = if next == 0 then s.tasks else next in
      record s { current = chosen; cr3 = (s.task chosen).memory }

-- The tasks that `TskPrintTasks` walks, with whether each is the current one; `none` when the fuel
-- runs out.
unfoldable pub listing : ℕ → ℕ → Sched → Option (List (ℕ × Bool))
listing zero p s = none
listing (suc fuel) p s =
    let rest = listing fuel (s.task p).next s in
    if p == 0 then some [] else Option.map (λ l. (p, p == s.current) ∷ l) rest
