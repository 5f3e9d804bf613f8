-- ===== src/Links/Chain.antt =====
-- The sequence that a list stands for, and what adding an element does to it.
use gewodsys.Base.{
  ℕ, ◌≡◌, ◌≢◌, refl, sym, ap, ◌∙◌, true, false, ◌==◌, ne→==, eq→==, List, [], ◌∷◌, ◌++◌,
}
use gewodsys.Links.{Entry, Head, Links, set_entry, set_next, set_prev, list_add, list_add_front}

abbrev pub head_or : ℕ → List ℕ → ℕ
head_or q [] = q
head_or q (x ∷ xs) = x

abbrev pub last_or : ℕ → List ℕ → ℕ
last_or p [] = p
last_or p (x ∷ xs) = last_or x xs

-- The elements lie one behind the other, between what stands before and behind them.
abbrev pub Linked : Links → ℕ → List ℕ → ℕ → Type 0
Linked s p [] q = Unit
Linked s p (x ∷ xs) q = (x ≢ 0) × ((s x).prev ≡ p) × ((s x).next ≡ head_or q xs) × Linked s x xs q

abbrev pub Fresh : ℕ → List ℕ → Type 0
Fresh a [] = Unit
Fresh a (x ∷ xs) = (x ≢ a) × Fresh a xs

abbrev pub Distinct : List ℕ → Type 0
Distinct [] = Unit
Distinct (x ∷ xs) = Fresh x xs × Distinct xs

-- A head and its links stand for a sequence of different elements.
pub record IsList (h : Head) (s : Links) (xs : List ℕ) : Type 0 where
  pub first : h.first ≡ head_or 0 xs
  pub last : h.last ≡ last_or 0 xs
  pub linked : Linked s 0 xs 0
  pub distinct : Distinct xs

pub Fresh-last : (a x : ℕ) (xs : List ℕ) → Fresh a (x ∷ xs) → last_or x xs ≢ a
Fresh-last a x [] f = f.0
Fresh-last a x (y ∷ ys) f = Fresh-last a y ys f.1

pub set_entry_ne : (a x : ℕ) (v : Entry) (s : Links) → x ≢ a → set_entry a v s x ≡ s x
unfolding set_entry
set_entry_ne a x v s ne = rw (ne→== x a ne)

set_entry_self : (a : ℕ) (v : Entry) (s : Links) → set_entry a v s a ≡ v
unfolding set_entry
set_entry_self a v s = rw (eq→== a a refl)

-- What happens to other elements leaves the links of these.
pub Linked-keep :
    (s : Links) (a p q : ℕ) (v : Entry) (xs : List ℕ)
    → Fresh a xs
    → Linked s p xs q
    → Linked (set_entry a v s) p xs q
Linked-keep s a p q v [] f l = tt
Linked-keep s a p q v (x ∷ xs) f l =
    let e = set_entry_ne a x v s f.0 in
    (l.0, ap (λ n. n.prev) e ∙ l.1, ap (λ n. n.next) e ∙ l.2, Linked-keep s a x q v xs f.1 l.3)

pub relink_last :
    (s : Links) (p q q' x : ℕ) (xs : List ℕ)
    → Distinct (x ∷ xs)
    → Linked s p (x ∷ xs) q
    → Linked (set_next (last_or x xs) q' s) p (x ∷ xs) q'
unfolding set_next
relink_last s p q q' x [] d l =
    let e = set_entry_self x (record { next = q'; prev = (s x).prev }) s in
    (l.0, ap (λ n. n.prev) e ∙ l.1, ap (λ n. n.next) e, tt)
relink_last s p q q' x (y ∷ ys) d l =
    let z : ℕ = last_or y ys in
    let e =
      set_entry_ne z x (record { next = q'; prev = (s z).prev }) s
        (λ same. Fresh-last x y ys d.0 (sym same)) in
    (l.0, ap (λ n. n.prev) e ∙ l.1, ap (λ n. n.next) e ∙ l.2, relink_last s x q q' y ys d.1 l.3)

pub relink_first :
    (s : Links) (p p' q x : ℕ) (xs : List ℕ)
    → Fresh x xs
    → Linked s p (x ∷ xs) q
    → Linked (set_prev x p' s) p' (x ∷ xs) q
unfolding set_prev
relink_first s p p' q x xs f l =
    let v : Entry = record { next = (s x).next; prev = p' } in
    let e = set_entry_self x v s in
    (l.0, ap (λ n. n.prev) e, ap (λ n. n.next) e ∙ l.2, Linked-keep s x x q v xs f l.3)

Linked-append :
    (s : Links) (p q el : ℕ) (xs : List ℕ)
    → el ≢ 0
    → Linked s p xs el
    → (s el).prev ≡ last_or p xs
    → (s el).next ≡ q
    → Linked s p (xs ++ (el ∷ [])) q
Linked-append s p q el [] ne l before after = (ne, before, after, tt)
Linked-append s p q el (x ∷ []) ne l before after = (l.0, l.1, l.2, (ne, before, after, tt))
Linked-append s p q el (x ∷ y ∷ ys) ne l before after =
    (l.0, l.1, l.2, Linked-append s x q el (y ∷ ys) ne l.3 before after)

Fresh-append : (a el : ℕ) (xs : List ℕ) → Fresh a xs → el ≢ a → Fresh a (xs ++ (el ∷ []))
Fresh-append a el [] f ne = (ne, tt)
Fresh-append a el (x ∷ xs) f ne = (f.0, Fresh-append a el xs f.1 ne)

Distinct-append : (el : ℕ) (xs : List ℕ) → Fresh el xs → Distinct xs → Distinct (xs ++ (el ∷ []))
Distinct-append el [] f d = (tt, tt)
Distinct-append el (x ∷ xs) f d =
    (Fresh-append x el xs d.0 (λ same. f.0 (sym same)), Distinct-append el xs f.1 d.1)

pub last_or-append : (p el : ℕ) (xs : List ℕ) → last_or p (xs ++ (el ∷ [])) ≡ el
last_or-append p el [] = refl
last_or-append p el (x ∷ xs) = last_or-append x el xs

-- The entry that both ways of adding write last.
set_both :
    (el n p : ℕ) (s : Links) → set_prev el p (set_next el n s) el ≡ record { next = n; prev = p }
unfolding set_next set_prev set_entry
set_both el n p s = rw (eq→== el el refl)

pub Linked-set_both :
    (el n p a b : ℕ) (s : Links) (xs : List ℕ)
    → Fresh el xs
    → Linked s a xs b
    → Linked (set_prev el p (set_next el n s)) a xs b
unfolding set_next set_prev
Linked-set_both el n p a b s xs f l =
    Linked-keep (set_next el n s) el a b (record { next = (set_next el n s el).next; prev = p }) xs
      f (Linked-keep s el a b (record { next = n; prev = (s el).prev }) xs f l)

list_add-IsList :
    (h : Head) (s : Links) (el : ℕ) (xs : List ℕ)
    → el ≢ 0
    → Fresh el xs
    → IsList h s xs
    → let r = list_add h el s in IsList r.0 r.1 (xs ++ (el ∷ []))
unfolding list_add
list_add-IsList h s el [] ne f is =
    let empty : (h.first == 0) ≡ true = eq→== h.first 0 is.first in
    let e = set_both el 0 0 s in
    rw (list_add, empty)
      (record {
        first = refl;
        last = refl;
        linked = (ne, ap (λ n. n.prev) e, ap (λ n. n.next) e, tt);
        distinct = (tt, tt);
      })
list_add-IsList h s el (x ∷ xs) ne f is =
    let some_first : (h.first == 0) ≡ false =
      ne→== h.first 0 (λ z. is.linked.0 (sym is.first ∙ z)) in
    let s1 = set_next (last_or x xs) el s in
    let e = set_both el 0 (last_or x xs) s1 in
    rw (list_add, some_first, is.last)
      (record {
        first = is.first;
        last = sym (last_or-append 0 el (x ∷ xs));
        linked =
            Linked-append (set_prev el (last_or x xs) (set_next el 0 s1)) 0 0 el (x ∷ xs) ne
              (Linked-set_both el 0 (last_or x xs) 0 el s1 (x ∷ xs) f
                (relink_last s 0 0 el x xs is.distinct is.linked))
              (ap (λ n. n.prev) e) (ap (λ n. n.next) e);
        distinct = Distinct-append el (x ∷ xs) f is.distinct;
      })

list_add_front-IsList :
    (h : Head) (s : Links) (el : ℕ) (xs : List ℕ)
    → el ≢ 0
    → Fresh el xs
    → IsList h s xs
    → let r = list_add_front h el s in IsList r.0 r.1 (el ∷ xs)
unfolding list_add_front
list_add_front-IsList h s el [] ne f is =
    let empty : (h.first == 0) ≡ true = eq→== h.first 0 is.first in
    let e = set_both el 0 0 s in
    rw (list_add_front, empty)
      (record {
        first = refl;
        last = refl;
        linked = (ne, ap (λ n. n.prev) e, ap (λ n. n.next) e, tt);
        distinct = (tt, tt);
      })
list_add_front-IsList h s el (x ∷ xs) ne f is =
    let some_first : (h.first == 0) ≡ false =
      ne→== h.first 0 (λ z. is.linked.0 (sym is.first ∙ z)) in
    let s1 = set_prev x el s in
    let e = set_both el x 0 s1 in
    rw (list_add_front, some_first, is.first)
      (record {
        first = refl;
        last = is.last;
        linked = (
          ne,
          ap (λ n. n.prev) e,
          ap (λ n. n.next) e,
          Linked-set_both el x 0 el 0 s1 (x ∷ xs) f
              (relink_first s 0 el 0 x xs is.distinct.0 is.linked),
        );
        distinct = (f, is.distinct);
      })

-- On a head that stands for a sequence, LIST_ADD with an element that is not null and not yet in the
-- sequence gives the sequence with the element at its end, and LIST_ADD_FRONT with it at its front.
pub adds-IsList :
    (h : Head) (s : Links) (el : ℕ) (xs : List ℕ)
    → el ≢ 0
    → Fresh el xs
    → IsList h s xs
    → (let r = list_add h el s in IsList r.0 r.1 (xs ++ (el ∷ [])))
      × (let r = list_add_front h el s in IsList r.0 r.1 (el ∷ xs))
adds-IsList h s el xs ne f is =
    (list_add-IsList h s el xs ne f is, list_add_front-IsList h s el xs ne f is)
