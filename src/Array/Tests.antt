-- ===== src/Array/Tests.antt =====
-- The theorems of the array at a small one, with the items 3, 5 and 9.
use gewodsys.Base.{◌≡◌, refl, arith, [], ◌∷◌}
use gewodsys.Rt.{Mem, load, store, store8}
use gewodsys.Array.{OrderedArray, pointer_predicate, insert, remove}
use gewodsys.Array.Insert.{contents, insert_sorted, contents-insert}

abbrev three : OrderedArray
three = record { array = 64; size = 3; capacity = 4; predicate = pointer_predicate }

abbrev memory : Mem
memory = store 8 64 3 (store 8 72 5 (store 8 80 9 (λ _. 0)))

holds : contents three memory ≡ 3 ∷ 5 ∷ 9 ∷ []
unfolding load store store8
holds = refl

inserted : contents (insert three 7 memory).0 (insert three 7 memory).1 ≡ 3 ∷ 5 ∷ 7 ∷ 9 ∷ []
unfolding insert load store store8 pointer_predicate
inserted = refl

removed : contents (remove three 1 memory).0 (remove three 1 memory).1 ≡ 3 ∷ 9 ∷ []
unfolding remove load store store8
removed = refl

contents-insert_example :
    contents (insert three 7 memory).0 (insert three 7 memory).1
    ≡ insert_sorted (λ y z. pointer_predicate y z memory) 7 (contents three memory)
contents-insert_example = contents-insert three 7 memory (omega arith) (omega arith)
