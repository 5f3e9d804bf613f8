-- ===== src/Links/Remove.antt =====
-- `LIST_REMOVE` takes an element out of the sequence.
use mathlib.Core.Path.{subst}
use gewodsys.Base.{
  ℕ, ◌≡◌, ◌≢◌, refl, sym, ap, ap₂, ◌∙◌, true, false, ◌==◌, ne→==, eq→==, List, [], ◌∷◌, ◌++◌,
}
use gewodsys.Links.{Head, Links, set_next, set_prev, list_remove}
use gewodsys.Links.Chain.{
  head_or, last_or, Linked, Fresh, Distinct, IsList, Fresh-last, set_entry_ne, Linked-keep,
  relink_last, relink_first, last_or-append, Linked-set_both,
}

Linked-split :
    (s : Links) (p q : ℕ) (xs ys : List ℕ)
    → Linked s p (xs ++ ys) q
    → Linked s p xs (head_or q ys) × Linked s (last_or p xs) ys q
Linked-split s p q [] ys l = (tt, l)
Linked-split s p q (x ∷ []) ys l = ((l.0, l.1, l.2, tt), l.3)
Linked-split s p q (x ∷ y ∷ xs) ys l =
    let (left, right) = Linked-split s x q (y ∷ xs) ys l.3 in ((l.0, l.1, l.2, left), right)

Linked-join :
    (s : Links) (p q : ℕ) (xs ys : List ℕ)
    → Linked s p xs (head_or q ys)
    → Linked s (last_or p xs) ys q
    → Linked s p (xs ++ ys) q
Linked-join s p q [] ys left right = right
Linked-join s p q (x ∷ []) ys left right = (left.0, left.1, left.2, right)
Linked-join s p q (x ∷ y ∷ xs) ys left right =
    (left.0, left.1, left.2, Linked-join s x q (y ∷ xs) ys left.3 right)

Fresh-drop : (a el : ℕ) (xs ys : List ℕ) → Fresh a (xs ++ (el ∷ ys)) → Fresh a (xs ++ ys) × (el ≢ a)
Fresh-drop a el [] ys f = (f.1, f.0)
Fresh-drop a el (x ∷ xs) ys f = let (rest, ne) = Fresh-drop a el xs ys f.1 in ((f.0, rest), ne)

-- The element differs from all others, which differ from each other.
Distinct-drop :
    (el : ℕ) (xs ys : List ℕ)
    → Distinct (xs ++ (el ∷ ys))
    → Distinct (xs ++ ys) × Fresh el xs × Fresh el ys
Distinct-drop el [] ys d = (d.1, tt, d.0)
Distinct-drop el (x ∷ xs) ys d =
    let (rest, before, after) = Distinct-drop el xs ys d.1 in
    let (f, ne) = Fresh-drop x el xs ys d.0 in ((f, rest), ((λ same. ne (sym same)), before), after)

Fresh-behind : (x : ℕ) (xs ys : List ℕ) → Distinct (x ∷ (xs ++ ys)) → Fresh (last_or x xs) ys
Fresh-behind x [] ys d = d.0
Fresh-behind x (y ∷ xs) ys d = Fresh-behind y xs ys d.1

Fresh-left : (a : ℕ) (xs ys : List ℕ) → Fresh a (xs ++ ys) → Fresh a xs
Fresh-left a [] ys f = tt
Fresh-left a (x ∷ xs) ys f = (f.0, Fresh-left a xs ys f.1)

Distinct-left : (xs ys : List ℕ) → Distinct (xs ++ ys) → Distinct xs
Distinct-left [] ys d = tt
Distinct-left (x ∷ xs) ys d = (Fresh-left x xs ys d.0, Distinct-left xs ys d.1)

last_or-middle : (p y : ℕ) (xs ys : List ℕ) → last_or p (xs ++ (y ∷ ys)) ≡ last_or y ys
last_or-middle p y [] ys = refl
last_or-middle p y (z ∷ xs) ys = last_or-middle z y xs ys

last_or-nil : (p : ℕ) (xs : List ℕ) → last_or p (xs ++ []) ≡ last_or p xs
last_or-nil p [] = refl
last_or-nil p (x ∷ xs) = last_or-nil x xs

set_next_ne : (a v x : ℕ) (s : Links) → x ≢ a → set_next a v s x ≡ s x
unfolding set_next
set_next_ne a v x s ne = set_entry_ne a x (record { next = v; prev = (s a).prev }) s ne

set_prev_ne : (a v x : ℕ) (s : Links) → x ≢ a → set_prev a v s x ≡ s x
unfolding set_prev
set_prev_ne a v x s ne = set_entry_ne a x (record { next = (s a).next; prev = v }) s ne

module _ (s : Links) (a v p q : ℕ) (xs : List ℕ) (f : Fresh a xs) (l : Linked s p xs q) where
  Linked-set_next : Linked (set_next a v s) p xs q
  unfolding set_next
  Linked-set_next = Linked-keep s a p q (record { next = v; prev = (s a).prev }) xs f l

  Linked-set_prev : Linked (set_prev a v s) p xs q
  unfolding set_prev
  Linked-set_prev = Linked-keep s a p q (record { next = (s a).next; prev = v }) xs f l

remove_only :
    (h : Head) (s : Links) (el : ℕ)
    → IsList h s (el ∷ [])
    → let r = list_remove h el s in IsList r.0 r.1 []
unfolding list_remove
remove_only h s el is =
    let first : (el == h.first) ≡ true = eq→== el h.first (sym is.first) in
    let last : (el == h.last) ≡ true = eq→== el h.last (sym is.last) in
    rw (list_remove, first, last) (record { first = refl; last = refl; linked = tt; distinct = tt })

remove_first :
    (h : Head) (s : Links) (el : ℕ) (y : ℕ) (ys : List ℕ)
    → IsList h s (el ∷ y ∷ ys)
    → let r = list_remove h el s in IsList r.0 r.1 (y ∷ ys)
unfolding list_remove
remove_first h s el y ys is =
    let fresh = is.distinct.0 in
    let first : (el == h.first) ≡ true = eq→== el h.first (sym is.first) in
    let last : (el == h.last) ≡ false =
      ne→== el h.last (λ same. Fresh-last el y ys fresh (sym (same ∙ is.last))) in
    let next = is.linked.2 in
    let same = set_prev_ne y 0 el s (λ e. fresh.0 (sym e)) in
    let s1 = set_prev y 0 s in
    let taken : list_remove h el s ≡ (record h { first = y }, set_next el 0 s1) =
      rw (list_remove, first, last)
        (ap (λ a. let t = set_prev a 0 s in (record h { first = (t el).next }, set_next el 0 t))
            next
          ∙ ap (λ e. (record h { first = e.next }, set_next el 0 s1)) same
          ∙ ap (λ n. (record h { first = n }, set_next el 0 s1)) next) in
    subst (λ r. IsList r.0 r.1 (y ∷ ys)) (sym taken)
      (record {
        first = refl;
        last = is.last;
        linked =
            Linked-set_next s1 el 0 0 0 (y ∷ ys) fresh
              (relink_first s el 0 0 y ys is.distinct.1.0 is.linked.3);
        distinct = is.distinct.1;
      })

remove_last :
    (h : Head) (s : Links) (el : ℕ) (x : ℕ) (xs : List ℕ)
    → IsList h s (x ∷ (xs ++ (el ∷ [])))
    → let r = list_remove h el s in IsList r.0 r.1 (x ∷ (xs ++ []))
unfolding list_remove
remove_last h s el x xs is =
    let (left, right) = Linked-split s 0 0 (x ∷ xs) (el ∷ []) is.linked in
    let (distinct, before, after) = Distinct-drop el (x ∷ xs) [] is.distinct in
    let first : (el == h.first) ≡ false =
      ne→== el h.first (λ same. before.0 (sym (same ∙ is.first))) in
    let last : (el == h.last) ≡ true = eq→== el h.last (sym (is.last ∙ last_or-append x el xs)) in
    let prev = right.1 in
    let same = set_next_ne (last_or x xs) 0 el s (λ e. Fresh-last el x xs before (sym e)) in
    let s1 = set_next (last_or x xs) 0 s in
    let taken : list_remove h el s ≡ (record h { last = last_or x xs }, set_prev el 0 s1) =
      rw (list_remove, first, last)
        (ap (λ a. let t = set_next a 0 s in (record h { last = (t el).prev }, set_prev el 0 t)) prev
          ∙ ap (λ e. (record h { last = e.prev }, set_prev el 0 s1)) same
          ∙ ap (λ n. (record h { last = n }, set_prev el 0 s1)) prev) in
    subst (λ r. IsList r.0 r.1 (x ∷ (xs ++ []))) (sym taken)
      (record {
        first = is.first;
        last = sym (last_or-nil x xs);
        linked =
            Linked-join (set_prev el 0 s1) 0 0 (x ∷ xs) []
              (Linked-set_prev s1 el 0 0 0 (x ∷ xs) before
                (relink_last s 0 el 0 x xs (Distinct-left (x ∷ xs) [] distinct) left))
              tt;
        distinct = distinct;
      })

remove_middle :
    (h : Head) (s : Links) (el : ℕ) (x : ℕ) (xs : List ℕ) (y : ℕ) (ys : List ℕ)
    → IsList h s (x ∷ (xs ++ (el ∷ y ∷ ys)))
    → let r = list_remove h el s in IsList r.0 r.1 (x ∷ (xs ++ (y ∷ ys)))
unfolding list_remove
remove_middle h s el x xs y ys is =
    let (left, right) = Linked-split s 0 0 (x ∷ xs) (el ∷ y ∷ ys) is.linked in
    let (distinct, before, after) = Distinct-drop el (x ∷ xs) (y ∷ ys) is.distinct in
    let p : ℕ = last_or x xs in
    let first : (el == h.first) ≡ false =
      ne→== el h.first (λ same. before.0 (sym (same ∙ is.first))) in
    let end_ = is.last ∙ last_or-middle x el xs (y ∷ ys) in
    let last : (el == h.last) ≡ false =
      ne→== el h.last (λ same. Fresh-last el y ys after (sym (same ∙ end_))) in
    let next = right.2 in
    let prev = right.1 in
    let same = set_prev_ne y p el s (λ e. after.0 (sym e)) in
    let s1 = set_prev y p s in
    let s2 = set_next p y s1 in
    let y_fresh = (Distinct-drop y (x ∷ xs) ys distinct).1 in
    let p_fresh = Fresh-behind x xs (y ∷ ys) distinct in
    let unlink : Links → Head × Links = λ t. (h, set_prev el 0 (set_next el 0 t)) in
    let taken : list_remove h el s ≡ unlink s2 =
      rw (list_remove, first, last)
        (ap₂ (λ a b. let t = set_prev a b s in unlink (set_next (t el).prev (t el).next t)) next
            prev
          ∙ ap (λ e. unlink (set_next e.prev e.next s1)) same
          ∙ ap₂ (λ a b. unlink (set_next b a s1)) next prev) in
    subst (λ r. IsList r.0 r.1 (x ∷ (xs ++ (y ∷ ys)))) (sym taken)
      (record {
        first = is.first;
        last = end_ ∙ sym (last_or-middle x y xs ys);
        linked =
            Linked-join (set_prev el 0 (set_next el 0 s2)) 0 0 (x ∷ xs) (y ∷ ys)
              (Linked-set_both el 0 0 0 y s2 (x ∷ xs) before (
                relink_last s1 0 el y x xs (Distinct-left (x ∷ xs) (y ∷ ys) distinct)
                  (Linked-set_prev s y p 0 el (x ∷ xs) y_fresh left)))
              (Linked-set_both el 0 0 p 0 s2 (y ∷ ys) after (
                Linked-set_next s1 p y p 0 (y ∷ ys) p_fresh
                  (relink_first s el p 0 y ys (Distinct-drop y (x ∷ xs) ys distinct).2 right.3)));
        distinct = distinct;
      })

-- On a head that stands for a sequence, LIST_REMOVE with an element of it gives the sequence without
-- that element.
pub list_remove-IsList :
    (h : Head) (s : Links) (el : ℕ) (xs ys : List ℕ)
    → IsList h s (xs ++ (el ∷ ys))
    → let r = list_remove h el s in IsList r.0 r.1 (xs ++ ys)
list_remove-IsList h s el [] [] is = remove_only h s el is
list_remove-IsList h s el [] (y ∷ ys) is = remove_first h s el y ys is
list_remove-IsList h s el (x ∷ xs) [] is = remove_last h s el x xs is
list_remove-IsList h s el (x ∷ xs) (y ∷ ys) is = remove_middle h s el x xs y ys is
