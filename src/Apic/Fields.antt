-- ===== src/Apic/Fields.antt =====
-- What each `ApicSetIrq` function leaves in the fields of the entry.
use gewodsys.Base.{
  ℕ, ◌/◌, ◌%◌, ◌<◌, bit_and, ◌≡◌, refl, ap, ◌∙◌, inl, inr, true, ◌||◌, some, arith, ◌==◌,
  if◌then◌else◌, ==_iff, Bool-cases, word64, field, with_field, all_below_sound, all_below,
}
use gewodsys.Base.Int.{pos}
use gewodsys.Apic.Hardware.{Device}
use gewodsys.Apic.{
  IoApic, Apic, get_by_irq, rentry_index, set_irq_mask, set_irq_vector, set_irq_dest,
  set_irq_isa_routing, route_polarity, route_trigger, vector_of, dest_mode, polarity, trigger_mode,
  mask_of, dest,
}
use gewodsys.Apic.Routing.{entry, entry-lt, update_rentry-Updated}

bit_table : all_below 256 (λ m. bit_and m 1 == m % 2) ≡ true
unfolding all_below
bit_table = refl

bit_and-one : (m : ℕ) → m < 256 → bit_and m 1 ≡ m % 2
bit_and-one m h = (==_iff _ _).0 (all_below_sound 256 (λ x. bit_and x 1 == x % 2) m bit_table h)

-- The fields of an entry, in their order; they make up its 64 bits.
pub record Fields : Type 0 where
  pub vector : ℕ
  pub delivery : ℕ
  pub mode : ℕ
  pub status : ℕ
  pub level : ℕ
  pub remote_irr : ℕ
  pub trigger : ℕ
  pub masked : ℕ
  pub unnamed : ℕ
  pub to : ℕ

abbrev pub fields : ℕ → Fields
fields w = record {
  vector = vector_of w;
  delivery = field 8 3 w;
  mode = dest_mode w;
  status = field 12 1 w;
  level = polarity w;
  remote_irr = field 14 1 w;
  trigger = trigger_mode w;
  masked = mask_of w;
  unnamed = field 17 39 w;
  to = dest w;
}

-- The polarity and the trigger that the flags of an override ask for, over the entry's own.
abbrev pub level_of : ℕ → ℕ → ℕ
level_of flags old =
    let p = bit_and flags 3 in if p == 0 || p == 3 then 1 else if p == 1 then 0 else old

abbrev pub trigger_of : ℕ → ℕ → ℕ
trigger_of flags old =
    let t = bit_and (flags / 4) 3 in if t == 0 || t == 1 then 0 else if t == 3 then 1 else old

routed : ℕ → ℕ → ℕ → ℕ
unfolding route_polarity route_trigger
routed vector flags raw =
    route_trigger flags (route_polarity flags (with_field 0 8 vector (with_field 16 1 1 raw)))

routed-lt : (vector flags w : ℕ) → w < word64 → routed vector flags w < word64
unfolding routed
routed-lt vector flags w h = ground arith

abbrev set_level : ℕ → Fields → Fields
set_level flags f = record f { level = level_of flags f.level }

abbrev set_trigger : ℕ → Fields → Fields
set_trigger flags f = record f { trigger = trigger_of flags f.trigger }

route_polarity-fields : (flags w : ℕ) → fields (route_polarity flags w) ≡ set_level flags (fields w)
unfolding route_polarity
route_polarity-fields flags w = elim (Bool-cases (bit_and flags 3 == 0 || bit_and flags 3 == 3)) [
  | inl e ↦ rw e (ground arith)
  | inr e ↦
      rw e (elim (Bool-cases (bit_and flags 3 == 1)) [ inl g ↦ rw g (ground arith) | inr g ↦ rw g ])
]

route_trigger-fields : (flags w : ℕ) → fields (route_trigger flags w) ≡ set_trigger flags (fields w)
unfolding route_trigger
route_trigger-fields flags w =
    elim (Bool-cases (bit_and (flags / 4) 3 == 0 || bit_and (flags / 4) 3 == 1)) [
      | inl e ↦ rw e (ground arith)
      | inr e ↦ rw e (elim (Bool-cases (bit_and (flags / 4) 3 == 3)) [
        | inl g ↦ rw g (ground arith)
        | inr g ↦ rw g
      ])
    ]

routed-fields :
    (vector flags w : ℕ)
    → vector < 256
    → fields (routed vector flags w) ≡ record (fields w) {
      vector = vector;
      masked = 1;
      level = level_of flags (polarity w);
      trigger = trigger_of flags (trigger_mode w);
    }
unfolding routed
routed-fields vector flags w h =
    let raw : ℕ = with_field 0 8 vector (with_field 16 1 1 w) in
    let base : fields raw ≡ record (fields w) { vector = vector; masked = 1 } = ground arith in
    route_trigger-fields flags (route_polarity flags raw)
    ∙ ap (set_trigger flags) (route_polarity-fields flags raw ∙ ap (set_level flags) base)

vectored : ℕ → ℕ → ℕ
vectored vector raw = with_field 0 8 vector (with_field 15 1 0 raw)

vectored-fields :
    (vector w : ℕ)
    → vector < 256
    → w < word64
    → (vectored vector w < word64)
      × (fields (vectored vector w) ≡ record (fields w) { vector = vector; trigger = 0 })
unfolding vectored
vectored-fields vector w h k = (omega arith, ground arith)

sent : ℕ → ℕ → ℕ → ℕ
sent mode to raw = with_field 56 8 to (with_field 11 1 mode raw)

sent-fields :
    (mode to w : ℕ)
    → to < 256
    → w < word64
    → (sent mode to w < word64)
      × (fields (sent mode to w) ≡ record (fields w) { mode = mode % 2; to = to })
unfolding sent
sent-fields mode to w h k = (omega arith, ground arith)

masked_with : ℕ → ℕ → ℕ
masked_with mask raw = with_field 16 1 (bit_and mask 1) raw

masked_with-fields :
    (mask w : ℕ)
    → mask < 256
    → w < word64
    → (masked_with mask w < word64)
      × (fields (masked_with mask w) ≡ record (fields w) { masked = mask % 2 })
unfolding masked_with
masked_with-fields mask w h k = (omega arith, ground (arith, bit_and-one mask h))

module _ (D : Device) where
  open D use {Dev, reg}

  abbrev pub fields_at : IoApic → ℕ → Apic D → Fields
  fields_at a irq s = fields (entry D a.address (rentry_index irq) s.dev)

  -- At the I/O APIC found for the request, `ApicSetIrqVector` makes it edge triggered with the given
  -- vector, `ApicSetIrqDest` sets the mode and the destination, `ApicSetIrqMask` the mask, and
  -- `ApicSetIrqIsaRouting` masks the request and sets the vector, with the polarity and the trigger
  -- that the flags ask for. All other bits of the entry stay as they are, and each function returns 0.
  pub set_irq-fields :
      (a : IoApic) (irq vector flags mode to mask : ℕ) (s : Apic D)
      → get_by_irq irq s.ioapics ≡ some a
      → vector < 256
      → to < 256
      → mask < 256
      → ((set_irq_vector D irq vector s).0 ≡ pos 0)
        × (fields_at a irq (set_irq_vector D irq vector s).1
            ≡ record (fields_at a irq s) { vector = vector; trigger = 0 })
        × ((set_irq_dest D irq mode to s).0 ≡ pos 0)
        × (fields_at a irq (set_irq_dest D irq mode to s).1
            ≡ record (fields_at a irq s) { mode = mode % 2; to = to })
        × ((set_irq_mask D irq mask s).0 ≡ pos 0)
        × (fields_at a irq (set_irq_mask D irq mask s).1
            ≡ record (fields_at a irq s) { masked = mask % 2 })
        × ((set_irq_isa_routing D irq vector flags s).0 ≡ pos 0)
        × (fields_at a irq (set_irq_isa_routing D irq vector flags s).1
            ≡ record (fields_at a irq s) {
              vector = vector;
              masked = 1;
              level = level_of flags (fields_at a irq s).level;
              trigger = trigger_of flags (fields_at a irq s).trigger;
            })
  unfolding set_irq_vector set_irq_dest set_irq_mask set_irq_isa_routing vectored sent masked_with
      routed
  set_irq-fields a irq vector flags mode to mask s found hv ht hm =
      let old : ℕ = entry D a.address (rentry_index irq) s.dev in
      let small : old < word64 = entry-lt D a.address (rentry_index irq) s.dev in
      let v =
        update_rentry-Updated D a irq (vectored vector) s found
          (λ w h. (vectored-fields vector w hv h).0) in
      let t =
        update_rentry-Updated D a irq (sent mode to) s found
          (λ w h. (sent-fields mode to w ht h).0) in
      let m =
        update_rentry-Updated D a irq (masked_with mask) s found
          (λ w h. (masked_with-fields mask w hm h).0) in
      let r =
        update_rentry-Updated D a irq (routed vector flags) s found
          (λ w h. routed-lt vector flags w h) in
      (
        v.status,
        ap fields v.changed ∙ (vectored-fields vector old hv small).1,
        t.status,
        ap fields t.changed ∙ (sent-fields mode to old ht small).1,
        m.status,
        ap fields m.changed ∙ (masked_with-fields mask old hm small).1,
        r.status,
        ap fields r.changed ∙ routed-fields vector flags old hv,
      )
