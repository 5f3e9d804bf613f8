-- ===== src/Heap/Safety.antt =====
-- The memory that `HeapAllocate` hands out, and the other blocks.
use mathlib.Core.List.{Mem}
use mathlib.Core.Path.{subst}
use gewodsys.Base.{
  Bool, ap, ◌==◌, ℕ, suc, ◌+◌, ◌≤◌, ◌<◌, ◌≡◌, refl, sym, inl, inr, arith, false, some, Bool-cases,
  if◌then◌else◌, List, [], ◌∷◌, ◌++◌, word64,
}
use gewodsys.Rt
use gewodsys.Rt.Words.{Apart}
use gewodsys.Heap.{Kernel, size_of}
use gewodsys.Heap.Allocate.{allocate}
use gewodsys.Heap.Tiling.{Block, Tiled, Tiled-le, Tiled-split}
use gewodsys.Heap.Index.{holes}
use gewodsys.Heap.Invariant.{IsHeap}
use gewodsys.Heap.Grant.{allocate-Granted}

-- The bytes from `a` to `a + n` lie in no block of the list.
abbrev pub Clear : ℕ → ℕ → List Block → Type 0
Clear a n [] = Unit
Clear a n (b ∷ bs) = Apart b.at b.bytes a n × Clear a n bs

Clear-append : (a n : ℕ) (xs ys : List Block) → Clear a n xs → Clear a n ys → Clear a n (xs ++ ys)
Clear-append a n [] ys p q = q
Clear-append a n (b ∷ xs) ys p q = (p.0, Clear-append a n xs ys p.1 q)

Tiled-below : (m : Rt.Mem) (s e a n : ℕ) (bs : List Block) → Tiled m s e bs → e ≤ a → Clear a n bs
Tiled-below m s e a n [] t le = tt
Tiled-below m s e a n (b ∷ bs) t le =
    let end_ = Tiled-le m (s + b.bytes) e bs t.2 in
    (inl (omega (arith, t.0)), Tiled-below m (s + b.bytes) e a n bs t.2 le)

Tiled-above :
    (m : Rt.Mem) (s e a n : ℕ) (bs : List Block) → Tiled m s e bs → a + n ≤ s → Clear a n bs
Tiled-above m s e a n [] t le = tt
Tiled-above m s e a n (b ∷ bs) t le =
    (inr (omega (arith, t.0)), Tiled-above m (s + b.bytes) e a n bs t.2 (omega arith))

-- The blocks that are no holes.
abbrev pub in_use : List Block → List Block
in_use [] = []
in_use (b ∷ bs) = if b.hole == 0 then b ∷ in_use bs else in_use bs

in_use-append : (xs ys : List Block) → in_use (xs ++ ys) ≡ in_use xs ++ in_use ys
in_use-append [] ys = refl
in_use-append (b ∷ xs) ys = elim (Bool-cases (b.hole == 0)) [
  | inl e ↦ rw e (ap (λ l. b ∷ l) (in_use-append xs ys))
  | inr e ↦ rw e (in_use-append xs ys)
]

Clear-in_use : (a n : ℕ) (bs : List Block) → Clear a n bs → Clear a n (in_use bs)
Clear-in_use a n [] c = tt
Clear-in_use a n (b ∷ bs) c = elim (Bool-cases (b.hole == 0)) [
  | inl e ↦ rw e (c.0, Clear-in_use a n bs c.1)
  | inr e ↦ rw e (Clear-in_use a n bs c.1)
]

-- What lies in one hole lies in no block that is in use.
inside_hole :
    (m : Rt.Mem) (s e a n : ℕ) (xs ys : List Block) (b : Block)
    → Tiled m s e (xs ++ b ∷ ys)
    → b.hole ≡ 1
    → b.at ≤ a
    → a + n ≤ b.at + b.bytes
    → (s ≤ b.at) × (b.at + b.bytes ≤ e) × Clear a n (in_use (xs ++ b ∷ ys))
inside_hole m s e a n xs ys b t kind lo hi =
    let (mid, left, (at, block, right)) = Tiled-split m s e xs (b ∷ ys) t in
    let before = Clear-in_use a n xs (Tiled-below m s mid a n xs left (omega (arith, at))) in
    let behind =
      Clear-in_use a n ys (Tiled-above m (mid + b.bytes) e a n ys right (omega (arith, at))) in
    let gone : in_use (b ∷ ys) ≡ in_use ys = rw kind refl in
    (
      omega (arith, at, Tiled-le m s mid xs left),
      omega (arith, at, Tiled-le m (mid + b.bytes) e ys right),
      rw (in_use-append xs (b ∷ ys), gone) (Clear-append a n (in_use xs) (in_use ys) before behind),
    )

-- Where a hole of a well-formed heap has room, `HeapAllocate` without alignment returns memory that
-- lies inside the heap and in no block that is in use, whether or not the index is in order.
pub allocate-Clear :
    (o : Bool) (fuel size a : ℕ) (k : Kernel) (bs : List Block)
    → IsHeap o k bs
    → Mem a (holes bs)
    → size + 32 ≤ size_of a k.mem
    → size + 32 < word64
    → (p : ℕ) × (after : Kernel) × (allocate (suc fuel) size false k ≡ some (p, after))
      × (k.heap.start_address < p)
      × (p + size < k.heap.end_address)
      × Clear p size (in_use bs)
allocate-Clear o fuel size a k bs h entry room fits =
    let g = allocate-Granted o fuel size a k bs h entry room fits in
    let b = g.block in
    let tiled = subst (Tiled k.mem k.heap.start_address k.heap.end_address) g.split h.tiled in
    let (lo, hi, clear) =
      inside_hole k.mem k.heap.start_address k.heap.end_address (b.at + 16) size g.before g.behind b
        tiled g.kind (omega arith) (omega (arith, g.room)) in
    (
      b.at + 16,
      g.after,
      g.result,
      omega (arith, lo),
      omega (arith, hi, g.room),
      subst (λ l. Clear (b.at + 16) size (in_use l)) (sym g.split) clear,
    )
