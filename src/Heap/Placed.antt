-- ===== src/Heap/Placed.antt =====
-- What memory says of the blocks of a heap, and the index after an insertion.
use mathlib.Core.List.{Mem}
use gewodsys.Base.{
  ℕ, ◌+◌, ◌≤◌, ◌<◌, ◌≡◌, refl, sym, ap, ◌∙◌, arith, ltb, List, [], ◌∷◌, ◌++◌, word32,
}
use gewodsys.Rt
use gewodsys.Array.{OrderedArray, insert, remove}
use gewodsys.Heap.{size_of, header_predicate}
use gewodsys.Heap.Tiling.{Block, Tiled}
use gewodsys.Heap.Index.{holes, find_block}

-- What the memory says of the size of each block, which lies from `lo` on.
abbrev pub Placed : ℕ → Rt.Mem → List Block → Type 0
Placed lo m [] = Unit
Placed lo m (b ∷ bs) = (lo ≤ b.at) × (size_of b.at m ≡ b.bytes) × Placed lo m bs

pub Tiled-Placed :
    (lo a e : ℕ) (m : Rt.Mem) (bs : List Block) → lo ≤ a → Tiled m a e bs → Placed lo m bs
Tiled-Placed lo a e m [] le t = tt
Tiled-Placed lo a e m (b ∷ bs) le t = (
  omega (arith, t.0, le),
  t.1.header.bytes,
  Tiled-Placed lo (a + b.bytes) e m bs (omega arith) t.2,
)

pub Placed-split :
    (lo : ℕ) (m : Rt.Mem) (xs ys : List Block)
    → Placed lo m (xs ++ ys)
    → Placed lo m xs × Placed lo m ys
Placed-split lo m [] ys p = (tt, p)
Placed-split lo m (b ∷ xs) ys p = let r = Placed-split lo m xs ys p.2 in ((p.0, p.1, r.0), r.1)

pub Placed-join :
    (lo : ℕ) (m : Rt.Mem) (xs ys : List Block)
    → Placed lo m xs
    → Placed lo m ys
    → Placed lo m (xs ++ ys)
Placed-join lo m [] ys p q = q
Placed-join lo m (b ∷ xs) ys p q = (p.0, p.1, Placed-join lo m xs ys p.2 q)

-- A hole has the same size where the same blocks lie.
pub Placed-same :
    (lo x : ℕ) (m m' : Rt.Mem) (bs : List Block)
    → Placed lo m bs
    → Placed lo m' bs
    → Mem x (holes bs)
    → (lo ≤ x) × (size_of x m' ≡ size_of x m)
Placed-same lo x m m' bs p q t =
    let f = find_block x bs t in
    let old = (Placed-split lo m f.before (f.block ∷ f.behind) (rw (← f.split) p)).1 in
    let new = (Placed-split lo m' f.before (f.block ∷ f.behind) (rw (← f.split) q)).1 in
    rw (← f.here) (old.0, new.1 ∙ sym old.1)

pub insert-index :
    (a : OrderedArray) (x : ℕ) (m : Rt.Mem)
    → a.size + 1 < word32
    → ((insert a x m).0.array ≡ a.array)
      × ((insert a x m).0.size ≡ a.size + 1)
      × ((insert a x m).0.predicate ≡ a.predicate)
unfolding insert
insert-index a x m fits = (refl, omega arith, refl)

pub remove-index :
    (a : OrderedArray) (i : ℕ) (m : Rt.Mem)
    → i < a.size
    → a.size < word32
    → ((remove a i m).0.array ≡ a.array)
      × ((remove a i m).0.size + 1 ≡ a.size)
      × ((remove a i m).0.predicate ≡ a.predicate)
unfolding remove
remove-index a i m lt fits = (refl, omega arith, refl)

pub predicate-size_of :
    (a : OrderedArray) (m : Rt.Mem) (y z : ℕ)
    → a.predicate ≡ header_predicate
    → a.predicate y z m ≡ ltb (size_of y m) (size_of z m)
unfolding header_predicate
predicate-size_of a m y z p = ap (λ f. f y z m) p
