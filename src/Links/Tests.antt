-- ===== src/Links/Tests.antt =====
-- Elements at the addresses 8, 16 and 24.
use gewodsys.Base.{◌≡◌, refl, arith, [], ◌∷◌}
use gewodsys.Links.{Head, Links, head_init, list_add, list_add_front, list_remove, set_entry}
use gewodsys.Links.Remove.{list_remove-IsList}
use gewodsys.Links.Chain.{IsList, adds-IsList}

abbrev blank : Links
blank _ = record { next = 0; prev = 0 }

abbrev two : Head × Links
two = let r = list_add head_init 8 blank in list_add r.0 16 r.1

removed : let r = list_remove two.0 8 two.1 in (r.0.first ≡ 16) × (r.0.last ≡ 16)
unfolding list_add list_remove set_entry
removed = (refl, refl)

two-IsList : IsList two.0 two.1 (8 ∷ 16 ∷ [])
unfolding list_add set_entry
two-IsList = record {
  first = refl;
  last = refl;
  linked = (λ e. omega (arith, e), refl, refl, (λ e. omega (arith, e), refl, refl, tt));
  distinct = ((λ e. omega (arith, e), tt), (tt, tt));
}

adds-IsList_example :
    (let r = list_add two.0 24 two.1 in IsList r.0 r.1 (8 ∷ 16 ∷ 24 ∷ []))
    × (let r = list_add_front two.0 24 two.1 in IsList r.0 r.1 (24 ∷ 8 ∷ 16 ∷ []))
adds-IsList_example =
    adds-IsList two.0 two.1 24 (8 ∷ 16 ∷ []) (λ e. omega (arith, e))
      (λ e. omega (arith, e), (λ e. omega (arith, e), tt)) two-IsList

list_remove-IsList_example : let r = list_remove two.0 16 two.1 in IsList r.0 r.1 (8 ∷ [])
list_remove-IsList_example = list_remove-IsList two.0 two.1 16 (8 ∷ []) [] two-IsList
