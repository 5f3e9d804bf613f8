-- ===== src/Heap/Split.antt =====
-- The blocks behind an allocation that splits a hole.
use gewodsys.Base.{
  ℕ, ◌+◌, ◌-◌, ◌*◌, ◌≤◌, ◌<◌, ◌≡◌, refl, sym, ap, ◌∙◌, inl, inr, arith, false, Bool-cases, ltb,
  if◌then◌else◌, List, [], ◌∷◌, ◌++◌, take, drop, word32, word64,
}
use gewodsys.Rt.{Mem, load}
use gewodsys.Rt.Words.{Apart}
use gewodsys.Array.{OrderedArray, get, insert, remove}
use gewodsys.Array.Insert.{contents}
use gewodsys.Heap.{Kernel, size_of, write_header}
use gewodsys.Heap.Allocate.{carve}
use gewodsys.Heap.Headers.{
  IsHeader, IsHeader-keep, IsFooter-keep, load-write_header, load-write_footer,
  write_header-IsHeader, load-remove, load-insert,
}
use gewodsys.Heap.Carve.{
  write_block, load-write_block, write_block-IsHeader, write_block-IsFooter, carve_whole,
  carve_split, split_mem,
}
use gewodsys.Heap.Tiling.{Block, used, free_block, Tiled, Tiled-split, Tiled-le, Tiled-replace}

-- What an allocation of `size` bytes makes of a hole.
abbrev pub pieces : ℕ → Block → List Block
pieces size b =
    if ltb b.bytes (size + 64)
    then used b.at b.bytes ∷ []
    else used b.at (size + 32) ∷ free_block (b.at + (size + 32)) (b.bytes - (size + 32)) ∷ []

-- The blocks before and behind a hole stay where only the hole and the index change.
retile :
    (m m' : Mem) (start e array cells : ℕ) (xs ys zs : List Block) (b : Block)
    → Tiled m start e (xs ++ b ∷ ys)
    → array + cells ≤ start
    → ((c u : ℕ) → Apart b.at b.bytes c u → Apart array cells c u → load u c m' ≡ load u c m)
    → Tiled m' b.at (b.at + b.bytes) zs
    → Tiled m' start e (xs ++ (zs ++ ys))
retile m m' start e array cells xs ys zs b tiled below same new =
    let (mid, left, (at, block, right)) = Tiled-split m start e xs (b ∷ ys) tiled in
    let right' : Tiled m (b.at + b.bytes) e ys = rw at right in
    let left' : Tiled m start b.at xs = rw at left in
    let bytes : b.at + b.bytes - b.at ≡ b.bytes = omega arith in
    Tiled-replace m m' start b.at (b.at + b.bytes) e array cells xs ys zs left' right' below
      (omega arith) (rw bytes same) new

module _ (size i : ℕ) (k : Kernel) where
  abbrev pub index : OrderedArray
  index = k.heap.index

  abbrev pub pos : ℕ
  pos = get index i k.mem

  abbrev pub hole : ℕ
  hole = size_of pos k.mem

  abbrev pub emptied : OrderedArray × Mem
  emptied = remove index i k.mem

  emptied-load :
      (b u : ℕ)
      → i < index.size
      → Apart index.array (8 * index.size) b u
      → load u b emptied.1 ≡ load u b k.mem
  emptied-load b u lt apart = load-remove index i u b k.mem (omega arith) apart

  whole-load :
      (b u : ℕ)
      → i < index.size
      → 32 ≤ hole
      → Apart pos hole b u
      → Apart index.array (8 * index.size) b u
      → load u b (write_block pos hole emptied.1) ≡ load u b k.mem
  whole-load b u lt room away apart =
      load-write_block pos hole emptied.1 b u room away ∙ emptied-load b u lt apart

  pub split-load :
      (b u : ℕ)
      → size + 64 ≤ hole
      → Apart (pos + (size + 32)) (hole - (size + 32)) b u
      → load u b (split_mem size i k) ≡ load u b (write_block pos (size + 32) emptied.1)
  split-load b u room apart =
      load-write_footer u b (pos + hole - 16) (pos + (size + 32))
        (write_header (pos + (size + 32)) 1 (hole - (size + 32))
          (write_block pos (size + 32) emptied.1))
        (grind arith)
      ∙ load-write_header u b (pos + (size + 32)) 1 (hole - (size + 32))
          (write_block pos (size + 32) emptied.1) (grind arith)

  rest-IsHeader :
      size + 64 ≤ hole
      → pos + hole < word64
      → IsHeader (pos + (size + 32)) 1 (hole - (size + 32)) (split_mem size i k)
  rest-IsHeader room fits =
      IsHeader-keep (pos + (size + 32)) 1 (hole - (size + 32)) _ (split_mem size i k)
        (λ b u lo hi.
          load-write_footer u b (pos + hole - 16) (pos + (size + 32))
            (write_header (pos + (size + 32)) 1 (hole - (size + 32))
              (write_block pos (size + 32) emptied.1))
            (inr (omega arith)))
        (write_header-IsHeader (pos + (size + 32)) 1 (hole - (size + 32))
          (write_block pos (size + 32) emptied.1) (omega arith) (omega arith))

  pub emptied-index :
      i < index.size
      → index.size < word32
      → (emptied.0.array ≡ index.array)
        × (emptied.0.size + 1 ≡ index.size)
        × (emptied.0.predicate ≡ index.predicate)
  unfolding remove
  emptied-index lt fits = (refl, omega arith, refl)

  module _ (start e : ℕ) (xs ys : List Block) (b : Block)
      (tiled : Tiled k.mem start e (xs ++ b ∷ ys)) (here : b.at ≡ pos) (room : size + 32 ≤ b.bytes)
      (listed : i < index.size) (count : index.size < word32)
      (below : index.array + 8 * index.size ≤ start) (ends : k.heap.end_address ≡ e)
      (fits : e < word64) where
    abbrev r : ℕ × Kernel
    r = carve size false i k

    pub bounds : (start ≤ pos) × (pos + hole ≤ e) × (b.bytes ≡ hole)
    bounds =
        let (mid, left, (at, block, right)) = Tiled-split k.mem start e xs (b ∷ ys) tiled in
        let bytes : b.bytes ≡ hole = sym block.header.bytes ∙ ap (λ p. size_of p k.mem) here in
        (
          omega (arith, Tiled-le k.mem start mid xs left, at, here),
          omega (arith, Tiled-le k.mem (mid + b.bytes) e ys right, at, here, bytes),
          bytes,
        )

    kept : List ℕ
    kept = take i (contents index k.mem) ++ drop (i + 1) (contents index k.mem)

    whole-Tiled :
        hole < size + 64
        → (r.0 ≡ b.at + 16) × Tiled r.1.mem start e (xs ++ ((used b.at b.bytes ∷ []) ++ ys))
    whole-Tiled tight =
        let (lo, hi, bytes) = bounds in
        let m' = write_block pos hole emptied.1 in
        let run = carve_whole size i k (omega (arith, bytes)) tight (omega arith) in
        rw run (
          omega (arith, here),
          retile k.mem m' start e index.array (8 * index.size) xs ys (used b.at b.bytes ∷ []) b
              tiled below
              (rw (here, bytes) (λ c u away apart. whole-load c u listed (omega arith) away apart))
              (rw (here, bytes)
                (
                  refl,
                  record {
                    room = omega (arith, bytes);
                    header =
                        write_block-IsHeader pos hole emptied.1 (omega (arith, bytes))
                          (omega arith);
                    footer = inr (write_block-IsFooter pos hole emptied.1 (omega arith));
                  },
                  refl,
                )),
        )

    abbrev pub rest : ℕ
    rest = pos + (size + 32)

    -- The index with the hole that is left, and the memory.
    abbrev pub final : OrderedArray × Mem
    final = insert emptied.0 rest (split_mem size i k)

    pub final-load :
        (c u : ℕ)
        → size + 64 ≤ hole
        → Apart index.array (8 * index.size) c u
        → load u c final.1 ≡ load u c (split_mem size i k)
    final-load c u roomy apart =
        let (same_array, fewer, p) = emptied-index listed count in
        load-insert emptied.0 rest u c (split_mem size i k) (rw (same_array, fewer) apart)

    split-Tiled :
        size + 64 ≤ hole
        → (r.0 ≡ b.at + 16)
          × Tiled r.1.mem start e (
              xs
              ++ ((used b.at (size + 32)
                    ∷ free_block (b.at + (size + 32)) (b.bytes - (size + 32))
                    ∷ [])
                  ++ ys))
    split-Tiled roomy =
        let (lo, hi, bytes) = bounds in
        let m' = final.1 in
        let run = carve_split size i k roomy (omega arith) (omega (arith, ends)) in
        let above = λ (c u : ℕ) (l : pos ≤ c). final-load c u roomy (inl (omega arith)) in
        rw run (
          omega (arith, here),
          retile k.mem m' start e index.array (8 * index.size) xs ys
              (used b.at (size + 32) ∷ free_block (b.at + (size + 32)) (b.bytes - (size + 32)) ∷ [])
              b tiled below
              (rw (here, bytes)
                (λ c u away apart.
                  final-load c u roomy apart
                  ∙ split-load c u roomy (grind arith)
                  ∙ load-write_block pos (size + 32) emptied.1 c u (omega arith) (grind arith)
                  ∙ emptied-load c u listed apart))
              (rw (here, bytes)
                (
                  refl,
                  record {
                    room = omega arith;
                    header =
                        IsHeader-keep pos 0 (size + 32) (write_block pos (size + 32) emptied.1) m'
                          (λ c u l h. above c u l ∙ split-load c u roomy (inr (omega arith)))
                          (write_block-IsHeader pos (size + 32) emptied.1 (omega arith)
                            (omega arith));
                    footer = inr (
                        IsFooter-keep (pos + (size + 32) - 16) pos
                          (write_block pos (size + 32) emptied.1) m'
                          (λ c u l h.
                            above c u (omega arith) ∙ split-load c u roomy (inr (omega arith)))
                          (write_block-IsFooter pos (size + 32) emptied.1 (omega arith)));
                  },
                  (
                    refl,
                    record {
                      room = omega arith;
                      header =
                          IsHeader-keep rest 1 (hole - (size + 32)) (split_mem size i k) m'
                            (λ c u l h. above c u (omega arith))
                            (rest-IsHeader roomy (omega arith));
                      footer = inl refl;
                    },
                    omega arith,
                  ),
                )),
        )

    -- Without alignment, an allocation from a hole with room returns the address behind the header of
    -- a block that begins where the hole began. The blocks tile the heap as before, with the hole in
    -- two, the block of `size + 32` bytes and a hole with the rest, or the whole hole as the block
    -- where less than 32 bytes would be left.
    pub carve-Tiled : (r.0 ≡ b.at + 16) × Tiled r.1.mem start e (xs ++ (pieces size b ++ ys))
    carve-Tiled =
        let (lo, hi, bytes) = bounds in
        elim (Bool-cases (ltb b.bytes (size + 64))) [
          | inl tight ↦ rw tight (whole-Tiled (ground (arith, bytes)))
          | inr roomy ↦ rw roomy (split-Tiled (ground (arith, bytes)))
        ]
