-- ===== src/Heap/Release.antt =====
-- The second half of `HeapFree`: a hole takes up the one behind it, whose entry leaves the index.
use mathlib.Core.List.{Perm, Mem, mem-cons_self}
use mathlib.Core.List.Perm
use gewodsys.Base.{
  ℕ, ◌+◌, ◌-◌, ◌*◌, ◌≤◌, ◌<◌, ◌≡◌, refl, ap, ◌∙◌, inl, inr, arith, Bool, true, eq→==, ne→==, List,
  [], ◌∷◌, ◌++◌, word32, word64,
}
use gewodsys.Rt
use gewodsys.Rt.{load, store}
use gewodsys.Rt.Words.{load-store_ne}
use gewodsys.Array.{OrderedArray, get, remove}
use gewodsys.Array.Cells.{items-keep}
use gewodsys.Array.Insert.{contents}
use gewodsys.Array.Order.{IsSorted}
use gewodsys.Array.Remove.{contents-remove}
use gewodsys.Pmm.{add64, sub64}
use gewodsys.Heap.{heap_magic, header_predicate, magic_of, is_hole, size_of}
use gewodsys.Heap.Free.{Freed, find_entry, join_right}
use gewodsys.Heap.Tiling.{Block, Tiled, Tiled-split, Tiled-le}
use gewodsys.Heap.Join.{Found}
use gewodsys.Heap.Coalesce.{find_entry_lem, behind, join_right-Joined}
use gewodsys.Heap.Index.{
  holes, index_of, without, take-drop-without, items-without, IsSorted-without, IsSorted-keep,
}
use gewodsys.Heap.Placed.{
  Placed, Tiled-Placed, Placed-split, Placed-join, Placed-same, remove-index,
}

-- What is left then: the blocks, the entries of the index, which are `others`, and where the hole stops.
pub record Settled (ordered : Bool) (start e stop : ℕ) (bs : List Block) (others : List ℕ)
    (f g : Freed) : Type 0 where
  pub tiled : Tiled g.mem start e bs
  pub listed : Perm (contents g.index g.mem) others
  pub sorted : ordered ≡ true → IsSorted (λ a. size_of a g.mem) (contents g.index g.mem)
  pub by_size : g.index.predicate ≡ header_predicate
  pub below : g.index.array + 8 * (g.index.size + 1) ≤ start
  pub count : g.index.size + 1 < word32
  pub header : g.header ≡ f.header
  pub add : g.add ≡ f.add
  pub footer : add64 g.footer 16 ≡ stop

module _ (index : OrderedArray) (start e : ℕ) (xs ys : List Block) (h n : Block) (f : Freed)
    (found : Found start e xs (n ∷ ys) h index f) (top : e < word64) where
  -- The memory in which the hole has the size of both.
  abbrev joined : Rt.Mem
  joined = store 8 (h.at + 8) (h.bytes + n.bytes) f.mem

  abbrev entry : ℕ
  entry = find_entry n.at index joined index.size 0

  abbrev taken_out : OrderedArray × Rt.Mem
  taken_out = remove index entry joined

  abbrev result : List Block
  result = xs ++ (behind h n ++ ys)

  -- What the memory says of the block behind.
  record Behind : Type 0 where
    next : add64 f.footer 16 ≡ n.at
    magic : magic_of n.at f.mem ≡ heap_magic
    kind : is_hole n.at f.mem ≡ n.hole
    sum : add64 (size_of h.at f.mem) (size_of n.at f.mem) ≡ h.bytes + n.bytes
    footer : sub64 (add64 n.at (size_of n.at joined)) 16 ≡ n.at + n.bytes - 16
    lo : start ≤ h.at
    hi : n.at + n.bytes ≤ e
    room : 32 ≤ n.bytes

  what_follows : Behind
  what_follows =
      let (mid, left, (at, block, (next, other, right))) =
        Tiled-split f.mem start e xs (h ∷ n ∷ ys) found.tiled in
      let lo = Tiled-le f.mem start mid xs left in
      let hi = Tiled-le f.mem (mid + h.bytes + n.bytes) e ys right in
      let rh = block.room in
      let rn = other.room in
      let same =
        load-store_ne 8 8 (h.at + 8) (h.bytes + n.bytes) (n.at + 8) f.mem
          (inl (omega (arith, at, next))) in
      record {
        next = omega (arith, found.end_, at, next);
        magic = other.header.magic;
        kind = other.header.kind;
        sum = omega (arith, block.header.bytes, other.header.bytes);
        footer = omega (arith, same, other.header.bytes, next);
        lo = omega (arith, at);
        hi = omega (arith, next);
        room = rn;
      }

  right_used : n.hole ≡ 0 → join_right f ≡ f
  unfolding join_right
  right_used kind =
      let w = what_follows in
      let used = eq→== n.hole 0 kind in rw (w.next, w.magic, w.kind, used) refl

  right_hole :
      n.hole ≡ 1
      → join_right f
        ≡ record f { footer = n.at + n.bytes - 16; index = taken_out.0; mem = taken_out.1 }
  unfolding join_right
  right_hole kind =
      let w = what_follows in
      rw (w.next, w.magic, w.kind, kind, found.at, found.index_same, w.sum, w.footer) refl

  module _ (o : Bool) (m : Rt.Mem) (others : List ℕ)
      (listed : Perm (contents index f.mem) (holes (n ∷ []) ++ others))
      (before : o ≡ true
        → (others ≡ holes (xs ++ ys))
          × Placed start m (xs ++ ys)
          × IsSorted (λ a. size_of a m) (contents index f.mem))
      (by_size : index.predicate ≡ header_predicate)
      (space : index.array + 8 * (index.size + 1) ≤ start) (count : index.size + 1 < word32) where
    -- The holes that stay keep their sizes.
    others-size :
        (m' : Rt.Mem) (x : ℕ)
        → o ≡ true
        → Tiled m' start e result
        → Mem x others
        → size_of x m' ≡ size_of x m
    others-size m' x order t entry =
        let (same, old, _) = before order in
        let new =
          Placed-split start m' xs (behind h n ++ ys)
            (Tiled-Placed start start e m' result (omega arith) t) in
        (Placed-same start x m m' (xs ++ ys) old
          (Placed-join start m' xs ys new.0 (Placed-split start m' (behind h n) ys new.1).1)
          (rw same at entry)).1

    -- Nothing below the heap changes before the index does.
    joined-contents : contents index joined ≡ contents index f.mem
    joined-contents =
        let w = what_follows in
        items-keep index.size index.array f.mem joined (λ c u lo hi.
          load-store_ne u 8 (h.at + 8) (h.bytes + n.bytes) c f.mem
            (inr (omega (arith, space, w.lo))))

    pub settle_used : n.hole ≡ 0 → Settled o start e n.at result others f (join_right f)
    settle_used kind =
        let w = what_follows in
        let run = right_used kind in
        let t : Tiled f.mem start e result =
          rw run at
            (join_right-Joined f index start e xs ys h n found (inl kind) (omega (arith, count))
              space top).tiled in
        let l = contents index f.mem in
        let same : Perm l others = rw (ne→== n.hole 1 (omega (arith, kind))) at listed in
        rw (run, found.index_same)
          (record {
            tiled = t;
            listed = same;
            sorted = λ q.
                IsSorted-keep (λ a. size_of a m) (λ a. size_of a f.mem) l
                  (λ x entry. others-size f.mem x q t ((Perm.mem_iff same).0 entry)) (before q).2;
            by_size = by_size;
            below = space;
            count = count;
            header = refl;
            add = refl;
            footer = w.next;
          })

    -- The search finds the entry of the block behind, and the index is left without it.
    settle_index :
        n.hole ≡ 1
        → (entry < index.size)
          × (contents taken_out.0 taken_out.1 ≡ without entry (contents index f.mem))
          × Perm (without entry (contents index f.mem)) others
    unfolding get
    settle_index kind =
        let l = contents index f.mem in
        let among : Perm l (n.at ∷ others) = rw (eq→== n.hole 1 kind) at listed in
        let (j, lt, at) =
          index_of n.at index.size index.array joined
            (rw joined-contents ((Perm.mem_iff among).1 mem-cons_self)) in
        let (below_size, here) =
          find_entry_lem n.at index.size 0 j index joined (omega arith) (omega (arith, lt)) at in
        let inside : entry < index.size = omega (arith, below_size) in
        let one : Perm l (n.at ∷ without entry l) =
          rw (here, joined-contents) at
            (items-without entry index.size index.array joined inside) in
        (
          inside,
          contents-remove index entry joined inside (omega (arith, count))
              ∙ take-drop-without entry (contents index joined)
              ∙ ap (without entry) joined-contents,
          Perm.cons_inv (Perm.trans (Perm.symm one) among),
        )

    pub settle_hole : n.hole ≡ 1 → Settled o start e (n.at + n.bytes) result others f (join_right f)
    settle_hole kind =
        let w = what_follows in
        let run = right_hole kind in
        let (inside, gone, same) = settle_index kind in
        let kept = without entry (contents index f.mem) in
        let t : Tiled taken_out.1 start e result =
          rw run at
            (join_right-Joined f index start e xs ys h n found (inr (omega (arith, inside)))
              (omega (arith, count)) space top).tiled in
        let (same_array, fewer, q) =
          remove-index index entry joined inside (omega (arith, count)) in
        rw run (record {
          tiled = t;
          listed = rw gone same;
          sorted = λ q. rw gone (
              IsSorted-keep (λ a. size_of a m) (λ a. size_of a taken_out.1) kept
                (λ x entry. others-size taken_out.1 x q t ((Perm.mem_iff same).0 entry))
                (IsSorted-without (λ a. size_of a m) entry (contents index f.mem) (before q).2));
          by_size = q ∙ by_size;
          below = omega (arith, same_array, fewer, space);
          count = omega (arith, fewer, count);
          header = refl;
          add = refl;
          footer = omega (arith, w.hi, w.room, top);
        })
