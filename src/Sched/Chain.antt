-- ===== src/Sched/Chain.antt =====
-- The list of tasks, and what a creation does to it.
use gewodsys.Base.{
  ℕ, ◌+◌, ◌%◌, ◌≡◌, refl, sym, ◌∙◌, ◌≢◌, List, [], ◌∷◌, ◌++◌, arith, ◌==◌, if◌then◌else◌, eq→==,
  ne→==, word64,
}
use gewodsys.Sched.{Task, Sched, create_task, create_kernel_task}

-- From `p` the links lead through the tasks `ps`.
abbrev pub Chain : (ℕ → Task) → ℕ → List ℕ → Type 0
Chain task p [] = p ≡ 0
Chain task p (q ∷ qs) = (p ≡ q) × (q ≢ 0) × Chain task (task q).next qs

abbrev pub Fresh : ℕ → List ℕ → Type 0
Fresh p [] = Unit
Fresh p (q ∷ qs) = (p ≢ q) × Fresh p qs

abbrev pub Distinct : List ℕ → Type 0
Distinct [] = Unit
Distinct (q ∷ qs) = Fresh q qs × Distinct qs

abbrev pub get_last : ℕ → List ℕ → ℕ
get_last p [] = p
get_last p (q ∷ qs) = get_last q qs

-- The scheduler's list holds the tasks `ps`, in order.
pub record IsQueue (s : Sched) (ps : List ℕ) : Type 0 where
  pub chain : Chain s.task s.tasks ps
  pub distinct : Distinct ps
  pub last : ps ≢ [] → s.last_task ≡ get_last 0 ps

Fresh-last : (q r : ℕ) (qs : List ℕ) → Fresh q (r ∷ qs) → q ≢ get_last r qs
Fresh-last q r [] h = h.0
Fresh-last q r (t ∷ qs) h = Fresh-last q t qs h.1

Fresh-append : (q a : ℕ) (qs : List ℕ) → Fresh q qs → q ≢ a → Fresh q (qs ++ a ∷ [])
Fresh-append q a [] h ne = (ne, tt)
Fresh-append q a (r ∷ qs) h ne = (h.0, Fresh-append q a qs h.1 ne)

Distinct-append : (a : ℕ) (qs : List ℕ) → Distinct qs → Fresh a qs → Distinct (qs ++ a ∷ [])
Distinct-append a [] d h = (tt, tt)
Distinct-append a (q ∷ qs) d h =
    (Fresh-append q a qs d.0 (λ e. h.0 (sym e)), Distinct-append a qs d.1 h.1)

get_last-append : (p a : ℕ) (qs : List ℕ) → get_last p (qs ++ a ∷ []) ≡ a
get_last-append p a [] = refl
get_last-append p a (q ∷ qs) = get_last-append q a qs

-- A chain grows at its end when its last task is made to point at the new one.
Chain-snoc :
    (f g : ℕ → Task) (x q a : ℕ) (qs : List ℕ)
    → Chain f x (q ∷ qs)
    → Distinct (q ∷ qs)
    → Fresh a (q ∷ qs)
    → a ≢ 0
    → ((u : ℕ) → u ≢ get_last q qs → u ≢ a → (g u).next ≡ (f u).next)
    → (g (get_last q qs)).next ≡ a
    → (g a).next ≡ 0
    → Chain g x ((q ∷ qs) ++ a ∷ [])
Chain-snoc f g x q a [] c d new real same joined ends = (c.0, c.1, (joined, real, ends))
Chain-snoc f g x q a (r ∷ qs) c d new real same joined ends = (
  c.0,
  c.1,
  rw (same q (Fresh-last q r qs d.0) (λ e. new.0 (sym e)))
      (Chain-snoc f g ((f q).next) r a qs c.2 d.1 new.1 real same joined ends),
)

-- A chain depends on the links alone.
Chain-same :
    (f g : ℕ → Task) (p : ℕ) (ps : List ℕ)
    → ((u : ℕ) → (g u).next ≡ (f u).next)
    → Chain f p ps
    → Chain g p ps
Chain-same f g p [] same c = c
Chain-same f g p (q ∷ qs) same c = (c.0, c.1, rw (same q) (Chain-same f g (f q).next qs same c.2))

module _ (p name entry : ℕ) (s : Sched) where
  create_task-fields :
      (((create_task p name entry s).task p).pid ≡ s.next_pid)
      × (((create_task p name entry s).task p).name ≡ name)
      × (((create_task p name entry s).task p).entry ≡ entry)
      × ((create_task p name entry s).next_pid ≡ (s.next_pid + 1) % word64)
      × ((create_task p name entry s).cr3 ≡ s.cr3)
  unfolding create_task
  create_task-fields = rw (eq→== p p refl) (refl, refl, refl, refl, ground arith)

  create_task-links :
      s.tasks ≢ 0
      → (u : ℕ)
      → (((create_task p name entry s).task u).next
          ≡ (if u == s.last_task then p else if u == p then 0 else (s.task u).next))
        × ((create_task p name entry s).tasks ≡ s.tasks)
        × ((create_task p name entry s).last_task ≡ p)
  unfolding create_task
  create_task-links some_tasks u = rw (ne→== s.tasks 0 some_tasks) (ground arith, refl, refl)

  create_task-alone :
      s.tasks ≡ 0
      → (((create_task p name entry s).task p).next ≡ 0)
        × ((create_task p name entry s).tasks ≡ p)
        × ((create_task p name entry s).last_task ≡ p)
  unfolding create_task
  create_task-alone no_tasks = rw (eq→== s.tasks 0 no_tasks) (ground arith, refl, refl)

  create_task-append :
      (ps : List ℕ)
      → IsQueue s ps
      → Fresh p ps
      → p ≢ 0
      → IsQueue (create_task p name entry s) (ps ++ p ∷ [])
  create_task-append [] is new real =
      let (ends, first, last) = create_task-alone is.chain in
      record { chain = rw first (refl, real, ends); distinct = (tt, tt); last = λ _. last }
  create_task-append (q ∷ qs) is new real =
      let l : ℕ = get_last q qs in
      let some_tasks : s.tasks ≢ 0 = λ e. is.chain.1 (sym is.chain.0 ∙ e) in
      let at_last : s.last_task ≡ l = is.last (λ e. absurd (cc)) in
      let links = create_task-links some_tasks in
      let last_ne : p ≢ l = Fresh-last p q qs new in
      record {
        chain = rw (links 0).1 (
            Chain-snoc s.task (create_task p name entry s).task s.tasks q p qs is.chain is.distinct
              new real (λ u a b. ground (arith, links u)) (ground (arith, links l))
              (ground (arith, links p)));
        distinct = Distinct-append p (q ∷ qs) is.distinct new;
        last = λ _. (links 0).2 ∙ sym (get_last-append q p qs);
      }

  -- `TskCreateKernelTask` puts the new task, which no list holds yet, behind those of the list, with
  -- the next process id, the given name and entry, and the address space in use.
  pub create_kernel_task-append :
      (ps : List ℕ)
      → IsQueue s ps
      → Fresh p ps
      → p ≢ 0
      → let s' = create_kernel_task p name entry s in
        IsQueue s' (ps ++ p ∷ [])
        × ((s'.task p).pid ≡ s.next_pid)
        × ((s'.task p).name ≡ name)
        × ((s'.task p).entry ≡ entry)
        × ((s'.task p).memory ≡ s.cr3)
        × (s'.next_pid ≡ (s.next_pid + 1) % word64)
  unfolding create_kernel_task
  create_kernel_task-append ps is new real =
      let made = create_task p name entry s in
      let after = create_task-append ps is new real in
      let facts = create_task-fields in
      rw (eq→== p p refl) (
        record {
          chain =
              Chain-same made.task (create_kernel_task p name entry s).task made.tasks
                (ps ++ p ∷ []) (λ u. ground arith) after.chain;
          distinct = after.distinct;
          last = after.last;
        },
        facts.0,
        facts.1,
        facts.2,
        facts.4,
        facts.3,
      )
