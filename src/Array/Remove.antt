-- ===== src/Array/Remove.antt =====
-- What `ArrayRemove` takes out.
use gewodsys.Base.{
  ℕ, zero, suc, ◌+◌, ◌-◌, ◌*◌, ◌%◌, ◌≤◌, ◌<◌, ◌≡◌, refl, sym, ◌∙◌, ap, ap₂, inl, inr, arith, ◌∷◌,
  ◌++◌, take, drop, word32,
}
use gewodsys.Rt.{Mem, load, store}
use gewodsys.Rt.Words.{load-store_ne, load-store_self, load-lt}
use gewodsys.Array.{OrderedArray, get, set_cell, shift_down, remove}
use gewodsys.Array.Cells.{items, items-store, items-add, take-items}
use gewodsys.Array.Insert.{contents}

shift_down-below :
    (a : OrderedArray) (n index k q : ℕ) (m : Mem)
    → q + 8 * k ≤ a.array + 8 * index
    → items k q (shift_down a n index m) ≡ items k q m
unfolding shift_down set_cell get
shift_down-below a zero index k q m h = refl
shift_down-below a (suc n) index k q m h =
    shift_down-below a n (index + 1) k q (set_cell a index (get a (index + 1) m) m) (omega arith)
    ∙ items-store k q (a.array + 8 * index) (get a (index + 1) m) m (inr (omega arith))

shift_down-load :
    (a : OrderedArray) (n index q : ℕ) (m : Mem)
    → q + 8 ≤ a.array + 8 * index
    → load 8 q (shift_down a n index m) ≡ load 8 q m
unfolding shift_down set_cell get
shift_down-load a zero index q m h = refl
shift_down-load a (suc n) index q m h =
    shift_down-load a n (index + 1) q (set_cell a index (get a (index + 1) m) m) (omega arith)
    ∙ load-store_ne 8 8 (a.array + 8 * index) (get a (index + 1) m) q m (inr (omega arith))

-- `n` rounds bring each of `n` cells the one after it.
shift_down-items :
    (a : OrderedArray) (n index p : ℕ) (m : Mem)
    → p ≡ a.array + 8 * index
    → items n p (shift_down a n index m) ≡ items n (p + 8) m
unfolding shift_down set_cell get
shift_down-items a zero index p m e = refl
shift_down-items a (suc n) index p m e =
    let f : a.array + 8 * (index + 1) ≡ p + 8 = omega arith in
    let next : ℕ = load 8 (p + 8) m in
    rw (f, ← e)
      (ap₂ ◌∷◌
        (shift_down-load a n (index + 1) p (store 8 p next m) (omega arith)
          ∙ load-store_self 8 p next m (load-lt 8 (p + 8) m))
        (shift_down-items a n (index + 1) (p + 8) (store 8 p next m) (omega arith)
          ∙ items-store n (p + 8 + 8) p next m (inl (omega arith))))

remove-split :
    (a : OrderedArray) (k d : ℕ) (m : Mem)
    → a.size ≡ k + suc d
    → items (k + d) a.array (shift_down a (suc d) k m)
      ≡ items k a.array m ++ items d (a.array + 8 * suc k) m
remove-split a k d m all =
    let p : ℕ = a.array + 8 * k in
    let f : a.array + 8 * suc k ≡ p + 8 = omega arith in
    let whole = shift_down-items a (suc d) k p m refl in
    rw (items-add k d a.array (shift_down a (suc d) k m), f)
      (ap₂ ◌++◌ (shift_down-below a (suc d) k k a.array m (omega arith)) (
        sym (take-items d (suc d) p (shift_down a (suc d) k m) (omega arith))
        ∙ ap (take d) whole
        ∙ take-items d (suc d) (p + 8) m (omega arith)))

drop-items : (k d p : ℕ) (m : Mem) → drop k (items (k + d) p m) ≡ items d (p + 8 * k) m
drop-items zero d p m =
    let e : 0 + d ≡ d = omega arith in let f : p + 8 * 0 ≡ p = omega arith in rw (e, f)
drop-items (suc k) d p m =
    let e : suc k + d ≡ suc (k + d) = omega arith in
    let f : p + 8 * suc k ≡ p + 8 + 8 * k = omega arith in rw (e, f) (drop-items k d (p + 8) m)

-- Below the count, `ArrayRemove` takes out the item at the index, and keeps the others in order.
pub contents-remove :
    (a : OrderedArray) (index : ℕ) (m : Mem)
    → index < a.size
    → a.size < word32
    → contents (remove a index m).0 (remove a index m).1
      ≡ take index (contents a m) ++ drop (index + 1) (contents a m)
unfolding remove
contents-remove a index m below fits = go (a.size - index - 1) (omega arith)
  where
    go :
        (d : ℕ)
        → a.size ≡ suc index + d
        → items ((a.size + word32 - 1) % word32) a.array (shift_down a (a.size - index) index m)
          ≡ take index (contents a m) ++ drop (index + 1) (contents a m)
    go d e =
        let s : a.size - index ≡ suc d = omega arith in
        let w : (a.size + word32 - 1) % word32 ≡ index + d = omega arith in
        let g : index + 1 ≡ suc index = omega arith in
        let e' : a.size ≡ index + suc d = omega arith in
        rw (s, w)
          (remove-split a index d m e'
            ∙ ap₂ ◌++◌ (sym (take-items index a.size a.array m (omega arith))) (
                rw g (
                  sym (
                    ap (λ n. drop (suc index) (items n a.array m)) e
                    ∙ drop-items (suc index) d a.array m))))

-- At an index that is not below the count, `ArrayRemove` moves nothing and takes out the last item.
pub remove_out_of_range :
    (a : OrderedArray) (index n : ℕ) (m : Mem)
    → a.size ≡ suc n
    → suc n < word32
    → a.size ≤ index
    → contents (remove a index m).0 (remove a index m).1 ≡ take n (contents a m)
unfolding remove shift_down
remove_out_of_range a index n m size fits beyond =
    let s : a.size - index ≡ 0 = omega arith in
    let w : (a.size + word32 - 1) % word32 ≡ n = omega arith in
    rw (s, w) (sym (take-items n a.size a.array m (omega arith)))
