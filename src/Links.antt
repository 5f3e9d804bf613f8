-- ===== src/Links.antt =====
-- kernel/lib/list.h: lists whose elements hold their own links. The entries lie in a store by the
-- address of the element; 0 is the null pointer.
pub mod Chain
pub mod Remove
mod Tests
use gewodsys.Base.{ℕ, ◌==◌, if◌then◌else◌}

-- `LIST_ENTRY`
pub record Entry : Type 0 where
  pub next : ℕ
  pub prev : ℕ

-- `LIST_HEAD`
pub record Head : Type 0 where
  pub first : ℕ
  pub last : ℕ

abbrev pub Links : Type 0
Links = ℕ → Entry

unfoldable pub set_entry : ℕ → Entry → Links → Links
set_entry a v s x = if x == a then v else s x

unfoldable pub set_next : ℕ → ℕ → Links → Links
unfolding set_entry
set_next a v s = set_entry a (record { next = v; prev = (s a).prev }) s

unfoldable pub set_prev : ℕ → ℕ → Links → Links
unfolding set_entry
set_prev a v s = set_entry a (record { next = (s a).next; prev = v }) s

abbrev pub head_init : Head
head_init = record { first = 0; last = 0 }

-- `LIST_ADD`
unfoldable pub list_add : Head → ℕ → Links → Head × Links
unfolding set_next set_prev
list_add h el s =
    if h.first == 0
    then (record { first = el; last = el }, set_prev el 0 (set_next el 0 s))
    else (record h { last = el }, set_prev el h.last (set_next el 0 (set_next h.last el s)))

-- `LIST_ADD_FRONT`
unfoldable pub list_add_front : Head → ℕ → Links → Head × Links
unfolding set_next set_prev
list_add_front h el s =
    if h.first == 0
    then (record { first = el; last = el }, set_prev el 0 (set_next el 0 s))
    else (record h { first = el }, set_prev el 0 (set_next el h.first (set_prev h.first el s)))

-- `LIST_REMOVE`
unfoldable pub list_remove : Head → ℕ → Links → Head × Links
unfolding set_next set_prev
list_remove h el s =
    if el == h.first
    then if el == h.last
      then (head_init, s)
      else (let s1 = set_prev (s el).next 0 s in
          (record h { first = (s1 el).next }, set_next el 0 s1))
    else if el == h.last
    then (let s1 = set_next (s el).prev 0 s in (record h { last = (s1 el).prev }, set_prev el 0 s1))
    else (let s1 = set_prev (s el).next (s el).prev s in
        let s2 = set_next (s1 el).prev (s1 el).next s1 in (h, set_prev el 0 (set_next el 0 s2)))
