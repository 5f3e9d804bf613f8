-- ===== src/Array/Insert.antt =====
-- `ArrayInsert` puts the item before the first one that the predicate does not place below it.
use gewodsys.Base.{
  ℕ, zero, suc, ◌+◌, ◌-◌, ◌*◌, ◌%◌, ◌≤◌, ◌<◌, ◌≡◌, refl, sym, ◌∙◌, ap, ap₂, inl, inr, arith, List,
  [], ◌∷◌, ◌++◌, take, Bool, Bool-cases, eq→==, ne→==, if◌then◌else◌, word32, word64,
}
use gewodsys.Rt.{Mem, load, store}
use gewodsys.Rt.Words.{load-store_ne, load-store_self, load-lt}
use gewodsys.Array.{OrderedArray, get, set_cell, scan, shift_up, insert_at, insert}
use gewodsys.Array.Cells.{items, items-store, items-add, take-items}

abbrev pub contents : OrderedArray → Mem → List ℕ
contents a m = items a.size a.array m

-- The place of an insertion, on lists.
abbrev pub insert_sorted : (ℕ → ℕ → Bool) → ℕ → List ℕ → List ℕ
insert_sorted p x [] = x ∷ []
insert_sorted p x (y ∷ ys) = if p y x then y ∷ insert_sorted p x ys else x ∷ y ∷ ys

module _ (a : OrderedArray) (x : ℕ) (m : Mem) where
  -- Where the scan stops: `k` cells on, with `d` left.
  record Stop (n iterator p : ℕ) : Type 0 where
    k : ℕ
    d : ℕ
    all : k + d ≡ n
    stops : scan a x m n iterator ≡ iterator + k
    place :
        insert_sorted (λ y z. a.predicate y z m) x (items n p m)
        ≡ items k p m ++ x ∷ items d (p + 8 * k) m

  scan-Stop : (n iterator p : ℕ) → p ≡ a.array + 8 * iterator → Stop n iterator p
  unfolding scan get
  scan-Stop zero iterator p e = record {
    k = 0;
    d = 0;
    all = refl;
    stops = omega arith;
    place = refl;
  }
  scan-Stop (suc n) iterator p e = elim (Bool-cases (a.predicate (load 8 p m) x m)) [
    | inr no_more ↦ record {
      k = 0;
      d = suc n;
      all = omega arith;
      stops = rw (← e, no_more) (omega arith);
      place = let f : p + 8 * 0 ≡ p = omega arith in rw (no_more, f);
    }
    | inl more ↦
        let r = scan-Stop n (iterator + 1) (p + 8) (omega arith) in
        record {
          k = suc r.k;
          d = r.d;
          all = omega (arith, r.all);
          stops = rw (← e, more, r.stops) (omega arith);
          place =
              let f : p + 8 * suc r.k ≡ p + 8 + 8 * r.k = omega arith in
              rw (more, f) (ap (λ xs. load 8 p m ∷ xs) r.place);
        }
  ]

-- Up to the cell after `p` nothing changes in a round of the shift.
shift_up-load :
    (a : OrderedArray) (n iterator tmp q : ℕ) (m : Mem)
    → q ≤ a.array + 8 * iterator
    → load 8 q (shift_up a n iterator tmp m) ≡ load 8 q m
unfolding shift_up set_cell
shift_up-load a zero iterator tmp q m h = refl
shift_up-load a (suc n) iterator tmp q m h =
    shift_up-load a n (iterator + 1) (get a (iterator + 1) m) q (set_cell a (iterator + 1) tmp m)
      (omega arith)
    ∙ load-store_ne 8 8 (a.array + 8 * (iterator + 1)) tmp q m (inr (omega arith))

shift_up-below :
    (a : OrderedArray) (n iterator tmp k q : ℕ) (m : Mem)
    → q + 8 * k ≤ a.array + 8 * iterator + 8
    → items k q (shift_up a n iterator tmp m) ≡ items k q m
shift_up-below a n iterator tmp zero q m h = refl
shift_up-below a n iterator tmp (suc k) q m h =
    ap₂ ◌∷◌ (shift_up-load a n iterator tmp q m (omega arith))
      (shift_up-below a n iterator tmp k (q + 8) m (omega arith))

-- The cells after `p` hold `tmp`, then what they held, less the last.
shift_up-items :
    (a : OrderedArray) (n iterator tmp p : ℕ) (m : Mem)
    → tmp < word64
    → p ≡ a.array + 8 * iterator
    → items n (p + 8) (shift_up a n iterator tmp m) ≡ take n (tmp ∷ items n (p + 8) m)
unfolding shift_up set_cell get
shift_up-items a zero iterator tmp p m small e = refl
shift_up-items a (suc n) iterator tmp p m small e =
    let f : a.array + 8 * (iterator + 1) ≡ p + 8 = omega arith in
    rw f (
      ap₂ ◌∷◌
        (shift_up-load a n (iterator + 1) (load 8 (p + 8) m) (p + 8) (store 8 (p + 8) tmp m)
            (omega arith)
          ∙ load-store_self 8 (p + 8) tmp m small)
        (shift_up-items a n (iterator + 1) (load 8 (p + 8) m) (p + 8) (store 8 (p + 8) tmp m)
            (load-lt 8 (p + 8) m) (omega arith)
          ∙ ap (λ xs. take n (load 8 (p + 8) m ∷ xs))
              (items-store n (p + 8 + 8) (p + 8) tmp m (inl (omega arith)))))

-- An insertion with `k` cells below it and `d` above.
insert_at-items :
    (a : OrderedArray) (x k d : ℕ) (m : Mem)
    → x < word64
    → k + d ≡ a.size
    → items (a.size + 1) a.array (insert_at a x k m)
      ≡ items k a.array m ++ x ∷ items d (a.array + 8 * k) m
unfolding insert_at set_cell get
insert_at-items a x k zero m small all =
    let e : a.size ≡ k = omega arith in
    rw (eq→== k a.size (omega arith), e, items-add k 1 a.array (store 8 (a.array + 8 * k) x m))
      (ap₂ ◌++◌ (items-store k a.array (a.array + 8 * k) x m (inr (omega arith)))
        (ap (λ y. y ∷ []) (load-store_self 8 (a.array + 8 * k) x m small)))
insert_at-items a x k (suc d) m small all =
    let p : ℕ = a.array + 8 * k in
    let e : a.size ≡ k + suc d = omega arith in
    let f : k + suc d + 1 ≡ k + suc (suc d) = omega arith in
    let g : k + suc d - k ≡ suc d = omega arith in
    let tail = shift_up-items a (suc d) k (load 8 p m) p (store 8 p x m) (load-lt 8 p m) refl in
    rw (ne→== k a.size (omega arith), e, f, g, items-add k (suc (suc d)) a.array)
      (ap₂ ◌++◌
        (shift_up-below a (suc d) k (load 8 p m) k a.array (store 8 p x m) (omega arith)
          ∙ items-store k a.array p x m (inr (omega arith)))
        (ap₂ ◌∷◌
          (shift_up-load a (suc d) k (load 8 p m) p (store 8 p x m) (omega arith)
            ∙ load-store_self 8 p x m small)
          (tail
            ∙ ap (λ xs. load 8 p m ∷ xs)
                (take-items d (suc d) (p + 8) (store 8 p x m) (omega arith)
                  ∙ items-store d (p + 8) p x m (inl (omega arith))))))

-- Where the count does not wrap and the item is a pointer, `ArrayInsert` leaves the old items in
-- their order, with the new one before the first that the predicate does not place below it.
pub contents-insert :
    (a : OrderedArray) (x : ℕ) (m : Mem)
    → x < word64
    → a.size + 1 < word32
    → contents (insert a x m).0 (insert a x m).1
      ≡ insert_sorted (λ y z. a.predicate y z m) x (contents a m)
unfolding insert
contents-insert a x m small fits =
    let r = scan-Stop a x m a.size 0 a.array (omega arith) in
    let s : scan a x m a.size 0 ≡ r.k = omega (arith, r.stops) in
    let w : (a.size + 1) % word32 ≡ a.size + 1 = omega arith in
    rw (w, s) (insert_at-items a x r.k r.d m small r.all ∙ sym r.place)
