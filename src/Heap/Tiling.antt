-- ===== src/Heap/Tiling.antt =====
-- The blocks of a heap, one behind the other from its start to its end.
use gewodsys.Base.{ℕ, ◌+◌, ◌-◌, ◌≤◌, ◌≡◌, ◌⊎◌, inl, inr, refl, arith, List, [], ◌∷◌, ◌++◌}
use gewodsys.Rt.{Mem, load}
use gewodsys.Rt.Words.{Apart}
use gewodsys.Heap.Headers.{IsHeader, IsFooter, IsHeader-keep, IsFooter-keep}

pub record Block : Type 0 where
  pub at : ℕ
  pub bytes : ℕ
  pub hole : ℕ

abbrev pub used : ℕ → ℕ → Block
used a n = record { at = a; bytes = n; hole = 0 }

abbrev pub free_block : ℕ → ℕ → Block
free_block a n = record { at = a; bytes = n; hole = 1 }

-- A block has its header, and its footer unless it is a hole.
pub record IsBlock (b : Block) (m : Mem) : Type 0 where
  pub room : 32 ≤ b.bytes
  pub header : IsHeader b.at b.hole b.bytes m
  pub footer : (b.hole ≡ 1) ⊎ IsFooter (b.at + b.bytes - 16) b.at m

abbrev pub Tiled : Mem → ℕ → ℕ → List Block → Type 0
Tiled m a e [] = a ≡ e
Tiled m a e (b ∷ bs) = (b.at ≡ a) × IsBlock b m × Tiled m (a + b.bytes) e bs

pub Tiled-le : (m : Mem) (a e : ℕ) (bs : List Block) → Tiled m a e bs → a ≤ e
Tiled-le m a e [] t = omega arith
Tiled-le m a e (b ∷ bs) t = omega (arith, Tiled-le m (a + b.bytes) e bs t.2)

pub Tiled-split :
    (m : Mem) (a e : ℕ) (xs ys : List Block)
    → Tiled m a e (xs ++ ys)
    → (mid : ℕ) × Tiled m a mid xs × Tiled m mid e ys
Tiled-split m a e [] ys t = (a, refl, t)
Tiled-split m a e (x ∷ xs) ys t =
    let (mid, left, right) = Tiled-split m (a + x.bytes) e xs ys t.2 in
    (mid, (t.0, t.1, left), right)

pub Tiled-join :
    (m : Mem) (a mid e : ℕ) (xs ys : List Block)
    → Tiled m a mid xs
    → Tiled m mid e ys
    → Tiled m a e (xs ++ ys)
Tiled-join m a mid e [] ys left right = rw left right
Tiled-join m a mid e (x ∷ xs) ys left right =
    (left.0, left.1, Tiled-join m (a + x.bytes) mid e xs ys left.2 right)

-- Blocks stay where nothing between their first and their last byte changes.
pub Tiled-keep :
    (m m' : Mem) (a e : ℕ) (bs : List Block)
    → ((b u : ℕ) → a ≤ b → b + u ≤ e → load u b m' ≡ load u b m)
    → Tiled m a e bs
    → Tiled m' a e bs
Tiled-keep m m' a e [] same t = t
Tiled-keep m m' a e (b ∷ bs) same t =
    let end_ = Tiled-le m (a + b.bytes) e bs t.2 in
    let room = t.1.room in
    (
      t.0,
      record {
        room = t.1.room;
        header =
            IsHeader-keep b.at b.hole b.bytes m m'
              (λ c u lo hi. same c u (omega (arith, t.0)) (omega (arith, t.0))) t.1.header;
        footer = elim t.1.footer [
          | inl h ↦ inl h
          | inr f ↦ inr (
              IsFooter-keep (b.at + b.bytes - 16) b.at m m'
                (λ c u lo hi. same c u (omega (arith, t.0)) (omega (arith, t.0))) f)
        ];
      },
      Tiled-keep m m' (a + b.bytes) e bs (λ c u lo hi. same c u (omega arith) hi) t.2,
    )

-- A run of blocks gives way to another where only its bytes and those of the index change.
pub Tiled-replace :
    (m m' : Mem) (start mid mid' e array cells : ℕ) (xs ys zs : List Block)
    → Tiled m start mid xs
    → Tiled m mid' e ys
    → array + cells ≤ start
    → mid ≤ mid'
    → ((c u : ℕ) → Apart mid (mid' - mid) c u → Apart array cells c u → load u c m' ≡ load u c m)
    → Tiled m' mid mid' zs
    → Tiled m' start e (xs ++ (zs ++ ys))
Tiled-replace m m' start mid mid' e array cells xs ys zs left right below order same new =
    let lo = Tiled-le m start mid xs left in
    Tiled-join m' start mid e xs (zs ++ ys)
      (Tiled-keep m m' start mid xs (λ c u l h. same c u (inr (omega arith)) (inl (omega arith)))
        left)
      (Tiled-join m' mid mid' e zs ys new (
        Tiled-keep m m' mid' e ys (λ c u l h. same c u (inl (omega arith)) (inl (omega arith)))
          right))
