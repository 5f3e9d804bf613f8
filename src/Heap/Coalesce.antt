-- ===== src/Heap/Coalesce.antt =====
-- The hole behind a block in `HeapFree`: its entry in the index, and the blocks.
use gewodsys.Base.{
  ℕ, zero, suc, ◌+◌, ◌-◌, ◌*◌, ◌≤◌, ◌<◌, ◌≡◌, ◌⊎◌, refl, ◌∙◌, inl, inr, arith, true, false,
  Bool-cases, ◌==◌, ==_iff, eq→==, if◌then◌else◌, List, [], ◌∷◌, ◌++◌, word32, word64,
}
use gewodsys.Rt.{Mem, store}
use gewodsys.Rt.Words.{Apart, load-store_ne}
use gewodsys.Array.{OrderedArray, get, remove}
use gewodsys.Pmm.{add64, sub64}
use gewodsys.Heap.{Heap, heap_magic, magic_of, size_of}
use gewodsys.Heap.Free.{Freed, find_entry, join_right, trim}
use gewodsys.Heap.Headers.{IsHeader, IsHeader-keep, set_size-IsHeader, load-remove}
use gewodsys.Heap.Tiling.{Block, free_block, Tiled, Tiled-split, Tiled-le, Tiled-replace}
use gewodsys.Heap.Join.{Found}

-- A hole and the block behind it, which it takes up if that is a hole.
abbrev pub behind : Block → Block → List Block
behind h n = if n.hole == 0 then h ∷ n ∷ [] else free_block h.at (h.bytes + n.bytes) ∷ []

find_entry-le :
    (a : ℕ) (index : OrderedArray) (m : Mem) (n i : ℕ) → find_entry a index m n i ≤ i + n
unfolding find_entry
find_entry-le a index m zero i = omega arith
find_entry-le a index m (suc n) i = ground (arith, find_entry-le a index m n (i + 1))

-- The search finds an entry that is there.
pub find_entry_lem :
    (a n i j : ℕ) (index : OrderedArray) (m : Mem)
    → i ≤ j
    → j < i + n
    → get index j m ≡ a
    → let r = find_entry a index m n i in (r < i + n) × (get index r m ≡ a)
unfolding find_entry
find_entry_lem a zero i j index m lo hi at = absurd (omega arith)
find_entry_lem a (suc n) i j index m lo hi at = elim (Bool-cases (get index i m == a)) [
  | inl here ↦ rw here (omega arith, (==_iff (get index i m) a).0 here)
  | inr there ↦ elim (Bool-cases (i == j)) [
    | inl same ↦
        let p : i ≡ j = (==_iff i j).0 same in
        let at' : get index i m ≡ a = rw p at in absurd (ground (arith, at', there))
    | inr other ↦
        let rest = find_entry_lem a n (i + 1) j index m (ground arith) (omega arith) at in
        rw there (omega (arith, rest.0), rest.1)
  ]
]

-- What is left after the hole behind has been joined.
pub record Joined (start e : ℕ) (bs : List Block) (stop header : ℕ) (f : Freed) : Type 0 where
  pub tiled : Tiled f.mem start e bs
  pub at : f.header ≡ header
  pub end_ : f.footer + 16 ≤ stop
  pub below : f.index.array + 8 * (f.index.size + 1) ≤ start

pub join_right-Joined :
    (f : Freed) (index : OrderedArray) (start e : ℕ) (xs ys : List Block) (h n : Block)
    → Found start e xs (n ∷ ys) h index f
    → (n.hole ≡ 0) ⊎ (0 < index.size)
    → index.size < word32
    → index.array + 8 * (index.size + 1) ≤ start
    → e < word64
    → Joined start e (xs ++ (behind h n ++ ys)) (n.at + n.bytes) h.at (join_right f)
unfolding join_right remove
join_right-Joined f index start e xs ys h n found filled count below fits =
    let (mid, left, (at, block, (next, behind_, right))) =
      Tiled-split f.mem start e xs (h ∷ n ∷ ys) found.tiled in
    let lo = Tiled-le f.mem start mid xs left in
    let hi = Tiled-le f.mem (mid + h.bytes + n.bytes) e ys right in
    let rh = block.room in
    let rn = behind_.room in
    let here : add64 f.footer 16 ≡ n.at = omega (arith, found.end_) in
    let magic : (magic_of n.at f.mem == heap_magic) ≡ true = eq→== _ _ behind_.header.magic in
    elim (Bool-cases (n.hole == 0)) [
      | inl kind ↦
          rw (here, magic, behind_.header.kind, kind)
            (record {
              tiled = found.tiled;
              at = found.at;
              end_ = omega (arith, found.end_);
              below = rw found.index_same below;
            })
      | inr kind ↦
          let s1 : add64 (size_of h.at f.mem) (size_of n.at f.mem) ≡ h.bytes + n.bytes =
            omega (arith, block.header.bytes, behind_.header.bytes) in
          let m1 = store 8 (h.at + 8) (h.bytes + n.bytes) f.mem in
          let i : ℕ = find_entry n.at index m1 index.size 0 in
          let some_left : 0 < index.size = ground (arith, filled) in
          let m2 = (remove index i m1).1 in
          let s2 : sub64 (add64 n.at (size_of n.at m1)) 16 ≡ n.at + n.bytes - 16 = omega (
            arith,
            load-store_ne 8 8 (h.at + 8) (h.bytes + n.bytes) (n.at + 8) f.mem (inl (omega arith)),
            behind_.header.bytes,
          ) in
          let gone = λ (c u : ℕ) (apart : Apart index.array (8 * index.size) c u).
            load-remove index i u c m1 (omega (arith, find_entry-le n.at index m1 index.size 0))
              apart in
          let left' : Tiled f.mem start h.at xs = rw at left in
          let right' : Tiled f.mem (n.at + n.bytes) e ys = rw next right in
          let header : IsHeader h.at 1 h.bytes f.mem = rw found.hole at block.header in
          rw (here, magic, behind_.header.kind, kind, found.at, found.index_same, s1, s2)
            (record {
              tiled =
                  Tiled-replace f.mem m2 start h.at (n.at + n.bytes) e index.array (8 * index.size)
                    xs ys (free_block h.at (h.bytes + n.bytes) ∷ []) left' right' (omega arith)
                    (omega (arith, next))
                    (λ c u away apart.
                      gone c u apart
                      ∙ load-store_ne u 8 (h.at + 8) (h.bytes + n.bytes) c f.mem (grind arith))
                    (
                      refl,
                      record {
                        room = omega arith;
                        header =
                            IsHeader-keep h.at 1 (h.bytes + n.bytes) m1 m2
                              (λ c u l r. gone c u (inl (omega arith)))
                              (set_size-IsHeader h.at 1 h.bytes (h.bytes + n.bytes) f.mem
                                (omega (arith, next)) header);
                        footer = inl refl;
                      },
                      omega (arith, next),
                    );
              at = refl;
              end_ = omega arith;
              below = omega arith;
            })
    ]

pub trim_inside :
    (right : ℕ) (f : Freed) (h : Heap)
    → (add64 f.footer 16 == h.end_address) ≡ false
    → trim right f h ≡ (f, h)
unfolding trim
trim_inside right f h inside = rw inside
