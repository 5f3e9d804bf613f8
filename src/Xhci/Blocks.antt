-- ===== src/Xhci/Blocks.antt =====
-- What `XhciRingAdd` does to the blocks of a ring.
use gewodsys.Base.{
  ℕ, ◌+◌, ◌-◌, ◌*◌, ◌%◌, ◌^◌, ◌<◌, ◌≡◌, ◌≢◌, refl, ◌∙◌, inl, inr, arith, false, Bool-cases, ◌==◌,
  ==_iff, ne→==, if◌then◌else◌, word32, field, with_field,
}
use gewodsys.Base.Int.{pos}
use gewodsys.Rt.{Mem, store}
use gewodsys.Rt.Words.{load-store_ne, load-store_self}
use gewodsys.Vmm.{Machine, get_physical_address}
use gewodsys.Xhci.{Ring, Added, cycle_of, trb_type, trb_link, trb_at, link_to, advance, ring_add}

-- A block with the cycle bit `c`.
abbrev pub stamp : ℕ → ℕ → ℕ
stamp c t = with_field 96 1 c t

pub link_to-fields :
    (c a : ℕ)
    → c < 2
    → (link_to c a < 2 ^ 128)
      × (cycle_of (link_to c a) ≡ c)
      × (trb_type (link_to c a) ≡ trb_link)
      × (field 97 1 (link_to c a) ≡ 1)
unfolding link_to
link_to-fields c a h = (omega arith, omega arith, omega arith, omega arith)

pub cycle_of-stamp : (c t : ℕ) → c < 2 → cycle_of (stamp c t) ≡ c
cycle_of-stamp c t h = omega arith

stamp-lt : (c t : ℕ) → t < 2 ^ 128 → stamp c t < 2 ^ 128
stamp-lt c t small = omega arith

-- What an addition does to the ring and to the blocks.
pub record Outcome (r : Ring) (t : ℕ) (s : Machine) (m : Mem) (a : Added) : Type 0 where
  pub result : a.result ≡ pos 0
  pub ptr : a.ring.ptr ≡ r.ptr
  pub size : a.ring.max_index ≡ r.max_index
  pub index : a.ring.index ≡ (if r.index + 1 == r.max_index - 1 then 0 else r.index + 1)
  pub cycle : a.ring.cycle ≡ (if r.index + 1 == r.max_index - 1 then 1 - r.cycle else r.cycle)
  pub here : trb_at r.ptr r.index a.mem ≡ stamp r.cycle t
  pub others : (j : ℕ) → j < r.max_index - 1 → j ≢ r.index → trb_at r.ptr j a.mem ≡ trb_at r.ptr j m
  pub link : trb_at r.ptr (r.max_index - 1) a.mem ≡ (
      if r.index + 1 == r.max_index - 1
      then link_to r.cycle (get_physical_address r.ptr s)
      else trb_at r.ptr (r.max_index - 1) m)

module _ (r : Ring) (t : ℕ) (s : Machine) (m : Mem) where
  abbrev stored : Mem
  stored = store 16 (r.ptr + 16 * r.index) (stamp r.cycle t) m

  abbrev linked : Mem
  linked =
      store 16 (r.ptr + 16 * (r.max_index - 1)) (link_to r.cycle (get_physical_address r.ptr s))
        stored

  pub ring_add-Outcome :
      trb_type t ≢ 0
      → t < 2 ^ 128
      → r.cycle < 2
      → r.index < r.max_index - 1
      → r.max_index < word32
      → Outcome r t s m (ring_add r t s m)
  unfolding ring_add advance
  ring_add-Outcome typed small bit inside fits =
      let real : (trb_type t == 0) ≡ false = ne→== _ 0 typed in
      let step : (r.index + 1) % word32 ≡ r.index + 1 = omega arith in
      let last : (r.max_index + word32 - 1) % word32 ≡ r.max_index - 1 = omega arith in
      let wide = stamp-lt r.cycle t small in
      let (wide', _, _, _) = link_to-fields r.cycle (get_physical_address r.ptr s) bit in
      let here = load-store_self 16 (r.ptr + 16 * r.index) (stamp r.cycle t) m wide in
      let apart = λ (j : ℕ) (ne : j ≢ r.index).
        load-store_ne 16 16 (r.ptr + 16 * r.index) (stamp r.cycle t) (r.ptr + 16 * j) m
          (grind arith) in
      elim (Bool-cases (r.index + 1 == r.max_index - 1)) [
        | inl e ↦
            let p : r.index + 1 ≡ r.max_index - 1 = (==_iff _ _).0 e in
            let off = λ (j : ℕ) (ne : j < r.max_index - 1).
              load-store_ne 16 16 (r.ptr + 16 * (r.max_index - 1))
                (link_to r.cycle (get_physical_address r.ptr s)) (r.ptr + 16 * j) stored
                (inr (omega arith)) in
            rw (ring_add, real, step, last, e, p)
              (record {
                result = refl;
                ptr = refl;
                size = refl;
                index = rw e;
                cycle = rw e (ground arith);
                here = off r.index inside ∙ here;
                others = λ j lt ne. off j lt ∙ apart j ne;
                link = rw e (
                    load-store_self 16 (r.ptr + 16 * (r.max_index - 1))
                      (link_to r.cycle (get_physical_address r.ptr s)) stored wide');
              })
        | inr e ↦
            rw (ring_add, real, step, last, e)
              (record {
                result = refl;
                ptr = refl;
                size = refl;
                index = rw e;
                cycle = rw e;
                here = here;
                others = λ j lt ne. apart j ne;
                link = rw e (apart (r.max_index - 1) (λ same. omega (arith, same)));
              })
      ]
