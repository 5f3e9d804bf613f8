-- ===== src/Sched/Tests.antt =====
-- Two tasks, at the addresses 100 and 200.
use gewodsys.Base.{
  ℕ, ◌+◌, ◌%◌, ◌≡◌, refl, arith, if◌then◌else◌, ◌==◌, some, true, false, List, [], ◌∷◌, ◌++◌,
  length, word64,
}
use gewodsys.Sched.{Task, zero_task, Sched, create_kernel_task, schedule, listing}
use gewodsys.Sched.Chain.{IsQueue, create_kernel_task-append}
use gewodsys.Sched.RoundRobin.{run, trace, trace-round}

abbrev tasks_at : ℕ → Task
tasks_at p =
    if p == 100
    then record zero_task { next = 200; memory = 7 }
    else if p == 200
    then record zero_task { memory = 8 }
    else zero_task

abbrev two : Sched
two = record { task = tasks_at; tasks = 100; last_task = 200; current = 0; next_pid = 3; cr3 = 7 }

abbrev both : List ℕ
both = 100 ∷ 200 ∷ []

two-IsQueue : IsQueue two both
two-IsQueue = record {
  chain = (refl, omega arith, (refl, omega arith, refl));
  distinct = ((omega arith, tt), (tt, tt));
  last = λ _. refl;
}

listed : listing 5 100 (schedule two) ≡ some ((100, true) ∷ (200, false) ∷ [])
unfolding listing schedule
listed = refl

create_kernel_task-append_example :
    let s' = create_kernel_task 300 11 12 two in
    IsQueue s' (both ++ 300 ∷ [])
    × ((s'.task 300).pid ≡ 3)
    × ((s'.task 300).name ≡ 11)
    × ((s'.task 300).entry ≡ 12)
    × ((s'.task 300).memory ≡ 7)
    × (s'.next_pid ≡ (3 + 1) % word64)
create_kernel_task-append_example =
    create_kernel_task-append 300 11 12 two both two-IsQueue (omega arith, (omega arith, tt))
      (omega arith)

trace-round_example :
    (trace (length both) two ≡ both) × (trace (length both) (run (length both) two) ≡ both)
trace-round_example = trace-round 100 (200 ∷ []) two two-IsQueue refl

abbrev running : Sched
running = record two { current = 100 }
