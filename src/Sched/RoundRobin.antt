-- ===== src/Sched/RoundRobin.antt =====
-- `TskSchedule` takes the tasks in turn.
use mathlib.Core.Path.{subst₂}
use gewodsys.Base.{
  ℕ, zero, suc, ◌≡◌, refl, sym, ap, ap₂, ◌∙◌, ◌≢◌, inl, inr, List, [], ◌∷◌, ◌==◌, eq→==, ne→==,
  Bool-cases, length,
}
use gewodsys.Sched.{Task, Sched, schedule}
use gewodsys.Sched.Chain.{Chain, IsQueue, get_last}

-- `n` runs of `TskSchedule`, and the tasks that they make current.
unfoldable pub run : ℕ → Sched → Sched
run zero s = s
run (suc n) s = run n (schedule s)

unfoldable pub trace : ℕ → Sched → List ℕ
trace zero s = []
trace (suc n) s = (schedule s).current ∷ trace n (schedule s)

-- A run leaves the tasks as they are.
schedule-keeps : (s : Sched) → ((schedule s).task ≡ s.task) × ((schedule s).tasks ≡ s.tasks)
unfolding schedule
schedule-keeps s = elim (Bool-cases (s.current == 0)) [
  | inl e ↦ rw e (refl, refl)
  | inr e ↦ rw e (refl, refl)
]

schedule-start : (s : Sched) → s.current ≡ 0 → (schedule s).current ≡ s.tasks
unfolding schedule
schedule-start s e = rw (eq→== s.current 0 e)

schedule-next :
    (s : Sched)
    → s.current ≢ 0
    → (s.task s.current).next ≢ 0
    → ((schedule s).current ≡ (s.task s.current).next)
      × ((schedule s).cr3 ≡ (s.task (s.task s.current).next).memory)
unfolding schedule
schedule-next s real more =
    rw (ne→== s.current 0 real, ne→== (s.task s.current).next 0 more) (refl, refl)

schedule_wrap :
    (s : Sched)
    → s.current ≢ 0
    → (s.task s.current).next ≡ 0
    → ((schedule s).current ≡ s.tasks) × ((schedule s).cr3 ≡ (s.task s.tasks).memory)
unfolding schedule
schedule_wrap s real last =
    rw (ne→== s.current 0 real, eq→== (s.task s.current).next 0 last) (refl, refl)

-- The tasks behind the current one come in order, and the last of them stays current.
trace-Chain :
    (qs : List ℕ) (s : Sched)
    → s.current ≢ 0
    → Chain s.task (s.task s.current).next qs
    → (trace (length qs) s ≡ qs)
      × ((run (length qs) s).current ≡ get_last s.current qs)
      × ((run (length qs) s).task ≡ s.task)
      × ((run (length qs) s).tasks ≡ s.tasks)
unfolding trace run
trace-Chain [] s real c = (refl, refl, refl, refl)
trace-Chain (q ∷ qs) s real c =
    let next = schedule-next s real (λ e. c.1 (sym c.0 ∙ e)) in
    let keeps = schedule-keeps s in
    let here : (schedule s).current ≡ q = next.0 ∙ c.0 in
    let rest = trace-Chain qs (schedule s) (λ e. c.1 (sym here ∙ e)) (rw (keeps.0, here) c.2) in
    (ap₂ ◌∷◌ here rest.0, rest.1 ∙ ap (λ x. get_last x qs) here, rest.2 ∙ keeps.0, rest.3 ∙ keeps.1)

-- A round from a state whose next schedule takes the first task.
round_from :
    (q : ℕ) (qs : List ℕ) (s : Sched)
    → Chain s.task s.tasks (q ∷ qs)
    → (schedule s).current ≡ s.tasks
    → (trace (suc (length qs)) s ≡ q ∷ qs)
      × ((run (suc (length qs)) s).current ≡ get_last q qs)
      × ((run (suc (length qs)) s).task ≡ s.task)
      × ((run (suc (length qs)) s).tasks ≡ s.tasks)
unfolding trace run
round_from q qs s c first =
    let keeps = schedule-keeps s in
    let here : (schedule s).current ≡ q = first ∙ c.0 in
    let rest = trace-Chain qs (schedule s) (λ e. c.1 (sym here ∙ e)) (rw (keeps.0, here) c.2) in
    (ap₂ ◌∷◌ here rest.0, rest.1 ∙ ap (λ x. get_last x qs) here, rest.2 ∙ keeps.0, rest.3 ∙ keeps.1)

Chain-end :
    (f : ℕ → Task) (p q : ℕ) (qs : List ℕ)
    → Chain f p (q ∷ qs)
    → ((f (get_last q qs)).next ≡ 0) × (get_last q qs ≢ 0)
Chain-end f p q [] c = (c.2, c.1)
Chain-end f p q (r ∷ qs) c = Chain-end f (f q).next r qs c.2

-- With no current task, as many schedules as there are tasks make each task current once, in the
-- order of the list, and as many again do the same.
pub trace-round :
    (q : ℕ) (qs : List ℕ) (s : Sched)
    → IsQueue s (q ∷ qs)
    → s.current ≡ 0
    → (trace (length (q ∷ qs)) s ≡ q ∷ qs)
      × (trace (length (q ∷ qs)) (run (length (q ∷ qs)) s) ≡ q ∷ qs)
trace-round q qs s is idle =
    let one = round_from q qs s is.chain (schedule-start s idle) in
    let s' = run (suc (length qs)) s in
    let end_ = Chain-end s.task s.tasks q qs is.chain in
    let again = schedule_wrap s' (rw one.1 end_.1) (rw (one.2, one.1) end_.0) in
    (
      one.0,
      (round_from q qs s' (subst₂ (λ f x. Chain f x (q ∷ qs)) (sym one.2) (sym one.3) is.chain)
          again.0).0,
    )

-- A switch from a current task loads the address space of the task that it makes current.
pub schedule-cr3 :
    (s : Sched) → s.current ≢ 0 → (schedule s).cr3 ≡ (s.task (schedule s).current).memory
unfolding schedule
schedule-cr3 s real = rw (ne→== s.current 0 real)
