-- ===== src/Vmm/Tests.antt =====
-- Page tables at the addresses 0x1000 to 0x4000 of an otherwise empty memory, whose first entries
-- lead from one to the next; the page at 0 is mapped to the frame 0x7000.
use gewodsys.Base.{ℕ, ◌+◌, ◌*◌, ◌%◌, ◌^◌, ◌<◌, ◌≡◌, refl, arith, inr, if◌then◌else◌, ◌==◌, some}
use gewodsys.Rt.{Mem, load}
use gewodsys.Rt.Words.{Apart}
use gewodsys.Pmm.{Pmm}
use gewodsys.Vmm.{
  Machine, get_page_indices, next_table, map_memory, get_physical_address, leaf_at, page_start,
  warn_unaligned, present, entry_at, set_page_permissions, get_page_permissions,
}
use gewodsys.Vmm.Map.{IsFrame, Walk, get_physical_address-map_memory}
use gewodsys.Vmm.Other.{IsUntouched, IsElsewhere, get_physical_address-other}
use gewodsys.Vmm.Permissions.{IsSeparate, get_page_permissions-set}

abbrev no_pages : Pmm
no_pages = record {
  total_available_pages = 0;
  first_available_page_addr = 0;
  last_available_page_address = 0;
  total_memory = 0;
  total_pages = 0;
  bitfield = 0;
  free_memory = 0;
  locked_memory = 0;
  reserved_memory = 0;
  bits = λ _. 0;
  last_requested = 0;
  warnings = 0;
}

-- The low two bytes of each first entry.
abbrev tables : Mem
tables a =
    if a == 0x1000
    then 3
    else if a == 0x1001
    then 0x20
    else if a == 0x2000
    then 3
    else if a == 0x2001
    then 0x30
    else if a == 0x3000
    then 3
    else if a == 0x3001
    then 0x40
    else if a == 0x4000
    then 3
    else if a == 0x4001
    then 0x70
    else 0

abbrev machine : Machine
machine = record { mem = tables; pmm = no_pages; pml4 = 0x1000; warnings = 0 }

mapped : get_physical_address 0x123 machine ≡ 0x7123
unfolding get_physical_address load leaf_at get_page_indices
mapped = refl

frame : (t : ℕ) → t % 4096 ≡ 0 → t < 2 ^ 40 → IsFrame t
frame t h k = record { on_page = h; small = k }

abbrev walk : Walk 0 (page_start 0x5123) (warn_unaligned 0x9000 (warn_unaligned 0x5123 machine))
unfolding next_table warn_unaligned get_page_indices load
walk = record {
  pdp_table = 0x2000;
  pd_table = 0x3000;
  pt_table = 0x4000;
  s1 = warn_unaligned 0x9000 (warn_unaligned 0x5123 machine);
  s2 = warn_unaligned 0x9000 (warn_unaligned 0x5123 machine);
  s3 = warn_unaligned 0x9000 (warn_unaligned 0x5123 machine);
  first = refl;
  second = refl;
  third = refl;
  frame0 = frame 0x1000 refl (omega arith);
  frame1 = frame 0x2000 refl (omega arith);
  frame2 = frame 0x3000 refl (omega arith);
  frame3 = frame 0x4000 refl (omega arith);
  ne01 = omega arith;
  ne02 = omega arith;
  ne03 = omega arith;
  ne12 = omega arith;
  ne13 = omega arith;
  ne23 = omega arith;
}

get_physical_address-map_memory_example :
    (s' : Machine) × (map_memory 0 0x5123 0x9000 machine ≡ some s')
    × (get_physical_address 0x5123 s' ≡ page_start 0x9000 % 2 ^ 40 + 0x5123 % 4096)
get_physical_address-map_memory_example =
    get_physical_address-map_memory 0 0x5123 0x9000 machine walk

-- The entries that lead to the page at 0 are present, and no walk makes a table anew.
untouched :
    (u : ℕ)
    → u % 4096 ≡ 0
    → u < 2 ^ 40
    → present (load 8 u tables) ≡ 1
    → (0x4000 + 8 * 5 ≡ u → ⊥)
    → IsUntouched walk u 0
unfolding walk next_table warn_unaligned get_page_indices load
untouched u on_page small there ne =
    let e : entry_at u 0 ≡ u = omega arith in
    record {
      frame = frame u on_page small;
      small = omega arith;
      there = rw e there;
      first = λ absent. absurd (omega (arith, absent));
      second = λ absent. absurd (omega (arith, absent));
      third = λ absent. absurd (omega (arith, absent));
      other = rw e ne;
    }

elsewhere : IsElsewhere walk 0x123
unfolding walk next_table warn_unaligned get_page_indices load
elsewhere = record {
  first = untouched 0x1000 refl (omega arith) refl (λ e. absurd (omega (arith, e)));
  second = untouched 0x2000 refl (omega arith) refl (λ e. absurd (omega (arith, e)));
  third = untouched 0x3000 refl (omega arith) refl (λ e. absurd (omega (arith, e)));
  last = untouched 0x4000 refl (omega arith) refl (λ e. absurd (omega (arith, e)));
}

get_physical_address-other_example :
    (s' : Machine) × (map_memory 0 0x5123 0x9000 machine ≡ some s')
    × (get_physical_address 0x123 s' ≡ get_physical_address 0x123 machine)
get_physical_address-other_example =
    get_physical_address-other 0 0x5123 0x9000 0x123 machine walk elsewhere

separate : IsSeparate 0x123 machine
unfolding leaf_at get_page_indices load
separate = record {
  from_pml4 = inr (omega arith);
  from_pdp = inr (omega arith);
  from_pd = inr (omega arith);
}

get_page_permissions-set_example :
    let s' = set_page_permissions 0x123 5 machine in
    (get_page_permissions 0x123 s' ≡ 5 % 16)
    × (get_physical_address 0x123 s' ≡ get_physical_address 0x123 machine)
    × ((a : ℕ) → Apart (leaf_at 0x123 machine) 8 a 8 → load 8 a s'.mem ≡ load 8 a machine.mem)
get_page_permissions-set_example = get_page_permissions-set 0x123 5 machine separate (omega arith)
