-- ===== src/Pci/Address.antt =====
-- The word for the address register names the function and the four bytes, and nothing else does.
use gewodsys.Base.{ℕ, ◌+◌, ◌*◌, ◌/◌, ◌^◌, ◌<◌, ◌≡◌, ◌↔◌, arith, bit_and}
use gewodsys.Base.Bits.{bit_or_shifted}
use gewodsys.Base.Masks.{bit_and-shifted}
use gewodsys.Pci.{PciDevice, config_address}

-- A device that the enumeration visits.
pub record IsPlace (p : PciDevice) : Type 0 where
  pub bus_small : p.bus < 256
  pub device_small : p.device < 32
  pub function_small : p.function < 8

pub offset_word : (offset : ℕ) → offset < 256 → bit_and offset 0xFC ≡ offset / 4 * 4
offset_word offset h = omega (arith, bit_and-shifted 2 6 offset)

pub config_address-sum :
    (p : PciDevice) (offset : ℕ)
    → IsPlace p
    → offset < 256
    → config_address p offset
      ≡ 2 ^ 31 + p.bus * 2 ^ 16 + p.device * 2 ^ 11 + p.function * 2 ^ 8 + offset / 4 * 4
unfolding config_address
config_address-sum p offset place h =
    let b = place.bus_small in
    let d = place.device_small in
    let f = place.function_small in
    let w = offset_word offset h in
    let e1 = bit_or_shifted 31 1 (p.bus * 2 ^ 16) (omega arith) in
    let s1 : 1 * 2 ^ 31 + p.bus * 2 ^ 16 ≡ (2 ^ 15 + p.bus) * 2 ^ 16 = omega arith in
    let e2 = bit_or_shifted 16 (2 ^ 15 + p.bus) (p.device * 2 ^ 11) (omega arith) in
    let s2 : (2 ^ 15 + p.bus) * 2 ^ 16 + p.device * 2 ^ 11
        ≡ (2 ^ 20 + p.bus * 2 ^ 5 + p.device) * 2 ^ 11 =
      omega arith in
    let e3 =
      bit_or_shifted 11 (2 ^ 20 + p.bus * 2 ^ 5 + p.device) (p.function * 2 ^ 8) (omega arith) in
    let s3 : (2 ^ 20 + p.bus * 2 ^ 5 + p.device) * 2 ^ 11 + p.function * 2 ^ 8
        ≡ (2 ^ 23 + p.bus * 2 ^ 8 + p.device * 2 ^ 3 + p.function) * 2 ^ 8 =
      omega arith in
    let e4 =
      bit_or_shifted 8 (2 ^ 23 + p.bus * 2 ^ 8 + p.device * 2 ^ 3 + p.function) (offset / 4 * 4)
        (omega arith) in
    rw (w, e1, s1, e2, s2, e3, s3, e4) (omega arith)

-- For devices that can be visited, two registers have the same word exactly when they belong to the
-- same bus, device and function and to the same four bytes.
pub config_address_iff :
    (p q : PciDevice) (i j : ℕ)
    → IsPlace p
    → IsPlace q
    → i < 256
    → j < 256
    → (config_address p i ≡ config_address q j)
      ↔ ((p.bus ≡ q.bus) × (p.device ≡ q.device) × (p.function ≡ q.function) × (i / 4 ≡ j / 4))
config_address_iff p q i j pp qq hi hj =
    let b = pp.bus_small in
    let d = pp.device_small in
    let f = pp.function_small in
    let b' = qq.bus_small in
    let d' = qq.device_small in
    let f' = qq.function_small in
    let e = config_address-sum p i pp hi in
    let e' = config_address-sum q j qq hj in
    (
      λ same. (omega arith, omega arith, omega arith, omega arith),
      λ parts. omega (arith, parts.0, parts.1, parts.2, parts.3),
    )
