-- ===== src/Heap/Fresh.antt =====
-- The heap that `HeapCreate` makes.
use mathlib.Core.List.Perm
use gewodsys.Base.{
  true, ℕ, ◌+◌, ◌-◌, ◌*◌, ◌/◌, ◌%◌, ◌≤◌, ◌<◌, ◌≡◌, refl, inl, arith, some, [], ◌∷◌, ◌==◌,
  if◌then◌else◌, word64,
}
use gewodsys.Rt.{Mem}
use gewodsys.Array.{OrderedArray, insert}
use gewodsys.Array as Array
use gewodsys.Array.Insert.{contents, contents-insert}
use gewodsys.Pmm.{add64, sub64, page_size}
use gewodsys.Vmm.{Machine, get_identity_page}
use gewodsys.Heap.{Kernel, create, header_predicate, heap_index_size, write_header}
use gewodsys.Heap.Headers.{IsHeader-keep, write_header-IsHeader, load-insert}
use gewodsys.Heap.Tiling.{free_block}
use gewodsys.Heap.Invariant.{IsHeap}

-- The first page behind the index.
abbrev first_of : ℕ → ℕ
first_of start =
    let past = add64 start (8 * heap_index_size) in
    if past / page_size == 0 then past else add64 (past / page_size * page_size) page_size

-- The heap with the one hole from `first` to `end_`, whose index lies at `start`.
fresh-IsHeap :
    (start first end_ max supervisor readonly : ℕ) (m : Mem) (s : Machine)
    → start + 8 ≤ first
    → first + 32 ≤ end_
    → end_ < word64
    → let a : OrderedArray = record {
      array = start;
      size = 0;
      capacity = heap_index_size;
      predicate = header_predicate;
    } in
      let r = insert a first (write_header first 1 (sub64 end_ first) m) in
      IsHeap true
        (record {
          heap = record {
            index = r.0;
            start_address = first;
            end_address = end_;
            max_address = max;
            supervisor = supervisor;
            readonly = readonly;
          };
          mem = r.1;
          machine = s;
        })
        (free_block first (end_ - first) ∷ [])
unfolding insert
fresh-IsHeap start first end_ max supervisor readonly m s above room top =
    let a : OrderedArray = record {
      array = start;
      size = 0;
      capacity = heap_index_size;
      predicate = header_predicate;
    } in
    let bytes : sub64 end_ first ≡ end_ - first = omega arith in
    let w = write_header first 1 (sub64 end_ first) m in
    let entries : contents (insert a first w).0 (insert a first w).1 ≡ first ∷ [] =
      contents-insert a first w (omega arith) (omega arith) in
    record {
      tiled = (
        refl,
        record {
          room = omega arith;
          header =
              IsHeader-keep first 1 (end_ - first) w (insert a first w).1
                (λ b u lo hi. load-insert a first u b w (inl (omega arith)))
                (rw bytes
                  (write_header-IsHeader first 1 (end_ - first) m (omega arith) (omega arith)));
          footer = inl refl;
        },
        omega arith,
      );
      listed = rw entries (Perm.refl (first ∷ []));
      sorted = λ e. (tt, tt);
      by_size = refl;
      below = omega arith;
      count = omega arith;
      top = top;
    }

-- The heap that `HeapCreate` leaves.
abbrev made : ℕ → ℕ → ℕ → ℕ → ℕ → Mem → Machine → Kernel
made start end_ max supervisor readonly m s =
    let first = first_of start in
    let (index, m1) = Array.create start heap_index_size header_predicate m in
    let (index', m2) = insert index first (write_header first 1 (sub64 end_ first) m1) in
    record {
      heap = record {
        index = index';
        start_address = first;
        end_address = end_;
        max_address = max;
        supervisor = supervisor;
        readonly = readonly;
      };
      mem = m2;
      machine = s;
    }

create-made :
    (fuel start end_ max supervisor readonly : ℕ) (m : Mem) (s : Machine) (r : ℕ × Machine)
    → get_identity_page fuel s ≡ some r
    → create fuel start end_ max supervisor readonly m s
      ≡ some (made start end_ max supervisor readonly m r.1)
unfolding create
create-made fuel start end_ max supervisor readonly m s r page = rw (create, page) refl

first_of_lem :
    (start : ℕ)
    → start + 8 * heap_index_size + page_size < word64
    → (start + 8 * heap_index_size ≤ first_of start)
      × (first_of start ≤ start + 8 * heap_index_size + page_size)
      × (first_of start % page_size ≡ 0)
first_of_lem start fits = (ground arith, ground arith, ground arith)

-- Where a page can be mapped, `HeapCreate` over two pages more than the index needs makes a
-- well-formed heap whose one block is a hole, from a page boundary behind the index to the end.
pub create-IsHeap :
    (fuel start end_ max supervisor readonly : ℕ) (m : Mem) (s : Machine) (r : ℕ × Machine)
    → get_identity_page fuel s ≡ some r
    → start + 8 * heap_index_size + 2 * page_size ≤ end_
    → end_ < word64
    → (k : Kernel) × (create fuel start end_ max supervisor readonly m s ≡ some k)
      × IsHeap true k (free_block k.heap.start_address (end_ - k.heap.start_address) ∷ [])
      × (k.heap.start_address % page_size ≡ 0)
      × (start + 8 * heap_index_size ≤ k.heap.start_address)
      × (k.heap.end_address ≡ end_)
unfolding Array.create
create-IsHeap fuel start end_ max supervisor readonly m s r page room top =
    let first : ℕ = first_of start in
    let (above, below, boundary) = first_of_lem start (omega arith) in
    (
      made start end_ max supervisor readonly m r.1,
      create-made fuel start end_ max supervisor readonly m s r page,
      fresh-IsHeap start first end_ max supervisor readonly
          (Array.create start heap_index_size header_predicate m).1 r.1 (omega (arith, above))
          (omega (arith, below)) top,
      boundary,
      above,
      refl,
    )
