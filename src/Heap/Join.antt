-- ===== src/Heap/Join.antt =====
-- The hole before a block in `HeapFree`.
use mathlib.Core.List.{append_assoc}
use gewodsys.Base.{
  ℕ, ◌+◌, ◌-◌, ◌<◌, ◌≡◌, refl, ◌∙◌, inl, inr, arith, true, false, Bool-cases, ◌==◌, ==_iff,
  if◌then◌else◌, List, [], ◌∷◌, ◌++◌, word64,
}
use gewodsys.Rt.{Mem, store}
use gewodsys.Rt.Words.{load-store_ne}
use gewodsys.Array.{OrderedArray}
use gewodsys.Pmm.{add64, sub64}
use gewodsys.Heap.{heap_magic, magic_of, is_hole, size_of, header_of}
use gewodsys.Heap.Free.{Freed, join_left}
use gewodsys.Heap.Headers.{IsFooter, IsHeader-keep, set_hole-IsHeader, set_size-IsHeader}
use gewodsys.Heap.Tiling.{Block, free_block, IsBlock, Tiled, Tiled-split, Tiled-le, Tiled-replace}

module _ (m : Mem) (p b : Block) where
  abbrev pub freed_mem : Mem
  freed_mem = store 1 (b.at + 4) 1 m

  abbrev pub last : ℕ
  last = b.at + b.bytes - 16

  abbrev pub joined_mem : Mem
  joined_mem = store 8 (p.at + 8) (p.bytes + b.bytes) (store 8 (last + 8) p.at freed_mem)

-- Marking a block as a hole leaves the blocks.
pub marked-Tiled :
    (m : Mem) (start e : ℕ) (xs ys : List Block) (b : Block)
    → Tiled m start e (xs ++ (b ∷ ys))
    → Tiled (store 1 (b.at + 4) 1 m) start e (xs ++ (free_block b.at b.bytes ∷ ys))
marked-Tiled m start e xs ys b tiled =
    let (mid, left, (at, block, right)) = Tiled-split m start e xs (b ∷ ys) tiled in
    let room = block.room in
    Tiled-replace m (store 1 (b.at + 4) 1 m) start b.at (b.at + b.bytes) e 0 0 xs ys
      (free_block b.at b.bytes ∷ []) (rw at left) (rw at right) (omega arith) (omega arith)
      (λ c u away apart. load-store_ne u 1 (b.at + 4) 1 c m (grind arith))
      (
        refl,
        record {
          room = room;
          header = set_hole-IsHeader b.at b.hole b.bytes m block.header;
          footer = inl refl;
        },
        refl,
      )

module _ (index : OrderedArray) (m : Mem) (p b : Block) (before : IsBlock p m) (block : IsBlock b m)
    (next : p.at + p.bytes ≡ b.at) (foot : IsFooter (b.at - 16) p.at m)
    (fits : b.at + b.bytes < word64) where
  abbrev freed : Mem
  freed = freed_mem m p b

  abbrev joined : Mem
  joined = joined_mem m p b

  abbrev end_ : ℕ
  end_ = last m p b

  left_facts :
      (sub64 (add64 b.at (size_of b.at m)) 16 ≡ end_)
      × (sub64 b.at 16 ≡ b.at - 16)
      × (magic_of (b.at - 16) freed ≡ heap_magic)
      × (header_of (b.at - 16) freed ≡ p.at)
      × (is_hole p.at freed ≡ p.hole)
  left_facts =
      let rp = before.room in
      let rb = block.room in
      (
        omega (arith, block.header.bytes),
        omega arith,
        load-store_ne 4 1 (b.at + 4) 1 (b.at - 16) m (inr (omega arith)) ∙ foot.magic,
        load-store_ne 8 1 (b.at + 4) 1 (b.at - 16 + 8) m (inr (omega arith)) ∙ foot.block,
        load-store_ne 1 1 (b.at + 4) 1 (p.at + 4) m (inr (omega arith)) ∙ before.header.kind,
      )

  pub join_left-used :
      (p.hole == 1) ≡ false
      → join_left b.at index m
        ≡ record { header = b.at; footer = end_; add = true; index = index; mem = freed }
  unfolding join_left
  join_left-used kind = let (e1, e2, e3, e4, e5) = left_facts in rw (e1, e2, e3, e4, e5, kind)

  pub join_left-hole :
      (p.hole == 1) ≡ true
      → join_left b.at index m
        ≡ record { header = p.at; footer = end_; add = false; index = index; mem = joined }
  unfolding join_left
  join_left-hole kind =
      let (e1, e2, e3, e4, e5) = left_facts in
      let rp = before.room in
      let rb = block.room in
      let s1 : size_of p.at (store 8 (end_ + 8) p.at freed) ≡ p.bytes =
        load-store_ne 8 8 (end_ + 8) p.at (p.at + 8) freed (inr (omega arith))
        ∙ load-store_ne 8 1 (b.at + 4) 1 (p.at + 8) m (inr (omega arith))
        ∙ before.header.bytes in
      let s2 : size_of b.at freed ≡ b.bytes =
        load-store_ne 8 1 (b.at + 4) 1 (b.at + 8) m (inl (omega arith)) ∙ block.header.bytes in
      let sum : add64 p.bytes b.bytes ≡ p.bytes + b.bytes = omega arith in
      rw (e1, e2, e3, e4, e5, kind, s1, s2, sum)

  joined-IsBlock : p.hole ≡ 1 → IsBlock (free_block p.at (p.bytes + b.bytes)) joined
  joined-IsBlock kind =
      let rp = before.room in
      let rb = block.room in
      record {
        room = omega arith;
        header = set_size-IsHeader p.at 1 p.bytes (p.bytes + b.bytes) _ (omega arith) (
            IsHeader-keep p.at 1 p.bytes m _
              (λ c u lo hi.
                load-store_ne u 8 (end_ + 8) p.at c freed (inr (omega arith))
                ∙ load-store_ne u 1 (b.at + 4) 1 c m (inr (omega arith)))
              (rw (← kind) before.header));
        footer = inl refl;
      }

-- What precedes the hole that is left of a block and the one before it, and that hole.
abbrev pub absorbed : List Block → Block → Block → List Block × Block
absorbed xs p b =
    if p.hole == 1
    then (xs, free_block p.at (p.bytes + b.bytes))
    else (xs ++ (p ∷ []), free_block b.at b.bytes)

-- A hole that has been found, and the blocks around it.
pub record Found (start e : ℕ) (xs ys : List Block) (h : Block) (index : OrderedArray) (f : Freed)
    : Type 0 where
  pub tiled : Tiled f.mem start e (xs ++ (h ∷ ys))
  pub at : f.header ≡ h.at
  pub end_ : f.footer ≡ h.at + h.bytes - 16
  pub hole : h.hole ≡ 1
  pub index_same : f.index ≡ index

pub join_left-Found :
    (index : OrderedArray) (m : Mem) (start e : ℕ) (xs ys : List Block) (p b : Block)
    → Tiled m start e (xs ++ (p ∷ b ∷ ys))
    → IsFooter (b.at - 16) p.at m
    → e < word64
    → Found start e (absorbed xs p b).0 ys (absorbed xs p b).1 index (join_left b.at index m)
join_left-Found index m start e xs ys p b tiled foot fits =
    let (mid, left, (at, before, (next, block, right))) =
      Tiled-split m start e xs (p ∷ b ∷ ys) tiled in
    let lo = Tiled-le m start mid xs left in
    let hi = Tiled-le m (mid + p.bytes + b.bytes) e ys right in
    let rp = before.room in
    let rb = block.room in
    let right' : Tiled m (b.at + b.bytes) e ys = rw next right in
    let touch : p.at + p.bytes ≡ b.at = omega (arith, at, next) in
    let room : b.at + b.bytes < word64 = omega (arith, next) in
    elim (Bool-cases (p.hole == 1)) [
      | inl kind ↦
          let run = join_left-hole index m p b before block touch foot room kind in
          let left' : Tiled m start p.at xs = rw at left in
          rw (kind, run)
            (record {
              tiled =
                  Tiled-replace m (joined_mem m p b) start p.at (b.at + b.bytes) e 0 0 xs ys
                    (free_block p.at (p.bytes + b.bytes) ∷ []) left' right' (omega arith)
                    (omega arith)
                    (λ c u away apart.
                      load-store_ne u 8 (p.at + 8) (p.bytes + b.bytes) c _ (grind arith)
                      ∙ load-store_ne u 8 (last m p b + 8) p.at c _ (grind arith)
                      ∙ load-store_ne u 1 (b.at + 4) 1 c m (grind arith))
                    (
                      refl,
                      joined-IsBlock index m p b before block touch foot room
                          ((==_iff p.hole 1).0 kind),
                      omega arith,
                    );
              at = refl;
              end_ = omega arith;
              hole = refl;
              index_same = refl;
            })
      | inr kind ↦
          let run = join_left-used index m p b before block touch foot room kind in
          rw (kind, run)
            (record {
              tiled =
                  marked-Tiled m start e (xs ++ (p ∷ [])) ys b
                    (rw (append_assoc xs (p ∷ []) (b ∷ ys)) tiled);
              at = refl;
              end_ = refl;
              hole = refl;
              index_same = refl;
            })
    ]
