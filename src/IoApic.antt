-- ===== src/IoApic.antt =====
-- The I/O APICs of kernel/cpu/apic.c: their registers, the fields of an entry, and the search for the
-- one that serves a request.
use gewodsys.Base.{
  ℕ, ◌+◌, ◌*◌, ◌/◌, ◌%◌, ◌^◌, bit_and, bit_or, ◌&&◌, ◌||◌, Option, none, some, List, [], ◌∷◌, ltb,
  leb, ◌==◌, if◌then◌else◌, word32, field, with_field,
}
use gewodsys.Apic.Hardware.{Device}

-- `IoApic`; the list links are in the state's list.
pub record IoApic : Type 0 where
  pub id : ℕ
  pub max_rentry : ℕ
  pub version : ℕ
  pub gsi_base : ℕ
  pub phys_addr : ℕ
  pub address : ℕ

-- The fields of `IoApicRentry` that the code writes.
abbrev pub vector_of : ℕ → ℕ
vector_of w = field 0 8 w

abbrev pub dest_mode : ℕ → ℕ
dest_mode w = field 11 1 w

abbrev pub polarity : ℕ → ℕ
polarity w = field 13 1 w

abbrev pub trigger_mode : ℕ → ℕ
trigger_mode w = field 15 1 w

abbrev pub mask_of : ℕ → ℕ
mask_of w = field 16 1 w

abbrev pub dest : ℕ → ℕ
dest w = field 56 8 w

-- `IoApicGetById`
unfoldable pub get_by_id : ℕ → List IoApic → Option IoApic
get_by_id id [] = none
get_by_id id (a ∷ ios) = if a.id == id then some a else get_by_id id ios

abbrev pub end_of : IoApic → ℕ
end_of a = (a.gsi_base + a.max_rentry) % word32

-- `IoApicGetByIrq`
unfoldable pub get_by_irq : ℕ → List IoApic → Option IoApic
get_by_irq irq [] = none
get_by_irq irq (a ∷ ios) =
    if leb a.gsi_base irq && ltb irq (end_of a) then some a else get_by_irq irq ios

unfoldable pub highest_from : ℕ → List IoApic → ℕ
highest_from highest [] = highest
highest_from highest (a ∷ ios) =
    highest_from (if ltb highest (end_of a) then end_of a else highest) ios

-- `ApicGetHighestIrq`
unfoldable pub get_highest_irq : List IoApic → ℕ
unfolding highest_from
get_highest_irq ios = highest_from 0 ios

-- `IOAPIC_RENTRY_BASE + 2 * irq`, as the `uint8_t` that it is passed as
abbrev pub rentry_index : ℕ → ℕ
rentry_index irq = (0x10 + 2 * irq) % 256

unfoldable pub route_polarity : ℕ → ℕ → ℕ
route_polarity flags raw =
    let p = bit_and flags 3 in
    if p == 0 || p == 3
    then with_field 13 1 1 raw
    else if p == 1
    then with_field 13 1 0 raw
    else raw

unfoldable pub route_trigger : ℕ → ℕ → ℕ
route_trigger flags raw =
    let t = bit_and (flags / 2 ^ 2) 3 in
    if t == 0 || t == 1
    then with_field 15 1 0 raw
    else if t == 3
    then with_field 15 1 1 raw
    else raw

module _ (D : Device) where
  open D use {Dev, put, fetch}

  -- Reading and writing through the two registers of an I/O APIC. `index` is a `uint8_t`, and the
  -- index of the second half is an `int`.
  unfoldable pub read64 : ℕ → ℕ → Dev → ℕ × Dev
  read64 base index d =
      let d1 = put base index d in
      let d2 = put base (index + 1) d1 in
      (bit_or (fetch (base + 0x10) d2 * 2 ^ 32) (fetch (base + 0x10) d1), d2)

  unfoldable pub write64 : ℕ → ℕ → ℕ → Dev → Dev
  write64 base index value d =
      put (base + 0x10) (value / 2 ^ 32)
        (put base (index + 1) (put (base + 0x10) (value % 2 ^ 32) (put base index d)))
