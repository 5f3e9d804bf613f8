-- ===== src/Xhci/Identity.antt =====
-- What `XhciInitialize` does to the bytes that identify functions.
use gewodsys.Base.{ℕ, zero, suc, ◌+◌, ◌%◌, ◌≡◌, refl, ◌⊎◌, inl, inr, bit_or, ◌==◌, word32}
use gewodsys.Base.Int.{ℤ, pos, negsuc}
use gewodsys.Ports.{Ports, Mmio, HasConfig}
use gewodsys.Apic.Hardware.{Device}
use gewodsys.Apic.{allocate_software_irq}
use gewodsys.Pci.{PciDevice, read32, maybe_enable_bus_mastering, maybe_enable_memory_access}
use gewodsys.Pci.Address.{IsPlace}
use gewodsys.Pci.Base.{bar_address}
use gewodsys.Pci.Command.{start-SameIds}
use gewodsys.Pci.Enumerate.{SameIds}
use gewodsys.Pci.Identity.{
  HasFixedIds, SameIds-trans, read32-SameIds, write32-SameIds, bar_address-SameIds,
}
use gewodsys.System.{map_identity, allocate_for}
use gewodsys.Xhci.Start.{
  XhciDevice, Host, xcap_id, xcap_next, find_msix, connect, find_interrupter, interrupter_create,
}
use gewodsys.Xhci.Initialize.{
  create_contexts, create_bitmap, connect_rings, xhci_initialize, locate,
}
use gewodsys.Base.Results.{
  Then, Option-cases, if-Then, weaken-Then, map-Then, bind-Then, map_all, bind_all,
}

Int-cases : (i : ℤ) → ((n : ℕ) × (i ≡ pos n)) ⊎ ((n : ℕ) × (i ≡ negsuc n))
Int-cases (pos n) = inl (n, refl)
Int-cases (negsuc n) = inr (n, refl)

module _ (D : Device) (P : Ports) (R : Mmio) (C : HasConfig P) (Rest : Type 0)
    (fixed : HasFixedIds P C Rest) where
  abbrev Same : P.Dev → P.Dev → Type 0
  Same = SameIds P C Rest

  abbrev trans : (d e f : P.Dev) → Same d e → Same e f → Same d f
  trans = SameIds-trans P C Rest

  abbrev pub SameHost : P.Dev → {A : Type 0} → A × Host D P R → Type 0
  SameHost d r = Same d r.1.system.ports

  find_msix-SameIds :
      (fuel : ℕ) (p : PciDevice) (mmio address capability : ℕ) (d : P.Dev)
      → Then (λ r. Same d r.1) (find_msix P fuel p mmio address capability d)
  unfolding find_msix
  find_msix-SameIds zero p mmio address capability d = tt
  find_msix-SameIds (suc n) p mmio address capability d =
      let next : ℕ = (address + xcap_next capability) % word32 in
      let (raw, d1) = read32 P p ((address + 4) % 256) d in
      let (following, d2) = read32 P p (next % 256) d in
      let read = read32-SameIds P C Rest p ((address + 4) % 256) d in
      let write = write32-SameIds P C Rest fixed p (address % 256) (bit_or capability 0x8000) d1 in
      let follow = read32-SameIds P C Rest p (next % 256) d in
      if-Then (λ r. Same d r.1) (xcap_id capability == 0x11) _ _ (trans d d1 _ read write)
        (if-Then (λ r. Same d r.1) (xcap_next capability == 0) _ _ (λ q j place id. refl)
          (weaken-Then (λ r. Same d2 r.1) (λ r. Same d r.1) _ (λ r. trans d d2 r.1 follow)
            (find_msix-SameIds n p mmio next following d2)))

  connect-SameIds :
      (fuel : ℕ) (x : XhciDevice) (index irq handler arg : ℕ) (s : Host D P R)
      → Then (SameHost s.system.ports) (connect D P R fuel x index irq handler arg s)
  unfolding connect
  connect-SameIds fuel x index irq handler arg s =
      let (pointer, d1) = read32 P x.pci 0x34 s.system.ports in
      let (capability, d2) = read32 P x.pci (pointer % 256) d1 in
      let reads =
        trans s.system.ports d1 d2 (read32-SameIds P C Rest x.pci 0x34 s.system.ports)
          (read32-SameIds P C Rest x.pci (pointer % 256) d1) in
      bind-Then (λ r. Same d2 r.1) (SameHost s.system.ports) _ _
        (λ r same.
          let there = trans s.system.ports d2 r.1 reads same in
          if-Then (SameHost s.system.ports) (r.0 == 0) _ _ there
            (map_all (SameHost s.system.ports) _ _ (λ e. there)))
        (find_msix-SameIds fuel x.pci x.mmio (pointer % 256) capability d2)

  interrupter_create-SameIds :
      (fuel : ℕ) (x : XhciDevice) (handler arg : ℕ) (s : Host D P R)
      → Then (SameHost s.system.ports) (interrupter_create D P R fuel x handler arg s)
  unfolding interrupter_create
  interrupter_create-SameIds fuel x handler arg s =
      let k = s.system.kernel in
      elim (Option-cases
        (find_interrupter x.interrupter_bitmap x.interrupter_bitmap_size 0 k.mem)) [
          | inl e ↦ rw (interrupter_create, e) (λ q j place id. refl)
          | inr (index, e) ↦ elim (Int-cases (allocate_software_irq D s.system.apic).0) [
            | inl (n, a) ↦
                rw (interrupter_create, e, a) (connect-SameIds fuel x index n handler arg _)
            | inr (n, a) ↦ rw (interrupter_create, e, a) (λ q j place id. refl)
          ]
        ]

  create_bitmap-SameIds :
      (fuel : ℕ) (x : XhciDevice) (s : Host D P R)
      → Then (SameHost s.system.ports) (create_bitmap D P R fuel x s)
  unfolding create_bitmap allocate_for
  create_bitmap-SameIds fuel x s =
      map-Then (λ t. Same s.system.ports t.1.ports) (SameHost s.system.ports) _ _ (λ t same. same)
        (map_all (λ t. Same s.system.ports t.1.ports) _ _ (λ k q j place id. refl))

  connect_rings-SameIds :
      (fuel handler at : ℕ) (x : XhciDevice) (s : Host D P R)
      → Then (SameHost s.system.ports) (connect_rings D P R fuel handler at x s)
  unfolding connect_rings
  connect_rings-SameIds fuel handler at x s = bind_all (SameHost s.system.ports) _ _ (λ r.
      bind-Then (SameHost s.system.ports) (SameHost s.system.ports) _ _
        (λ q same.
          map-Then (SameHost q.1.system.ports) (SameHost s.system.ports) _ _
            (λ u. trans s.system.ports q.1.system.ports u.1.system.ports same)
            (interrupter_create-SameIds fuel q.0 handler at q.1))
        (create_bitmap-SameIds fuel (record x { cmd = r.1 }) _))

  create_contexts-SameIds :
      (fuel : ℕ) (x : XhciDevice) (s : Host D P R)
      → Then (SameHost s.system.ports) (create_contexts D P R fuel x s)
  unfolding create_contexts allocate_for
  create_contexts-SameIds fuel x s =
      map-Then (λ t. Same s.system.ports t.1.ports) (SameHost s.system.ports) _ _ (λ t same. same)
        (map_all (λ t. Same s.system.ports t.1.ports) _ _ (λ k q j place id. refl))

  -- Starting the controller on a function changes none of these bytes of any function.
  pub xhci_initialize-SameIds :
      (fuel handler : ℕ) (p : PciDevice) (s : Host D P R)
      → IsPlace p
      → Then (SameHost s.system.ports) (xhci_initialize D P R fuel handler p s)
  unfolding xhci_initialize map_identity allocate_for
  xhci_initialize-SameIds fuel handler p s place =
      let d0 = s.system.ports in
      let d = maybe_enable_memory_access P p (maybe_enable_bus_mastering P p d0) in
      let d' = (bar_address P p 0x10 d).1 in
      let starts : Same d0 d' =
        trans d0 d d' (start-SameIds P C Rest p d0 place) (bar_address-SameIds P C Rest p 0x10 d) in
      bind-Then (λ t. Same d0 t.ports) (SameHost d0) _ _
        (λ t mapped.
          bind-Then (λ r. Same d0 r.1.ports) (SameHost d0) _ _
            (λ r allocated. bind_all (SameHost d0) _ _ (λ d2.
              bind-Then (SameHost d0) (SameHost d0) _ _
                (λ q same.
                  weaken-Then (SameHost q.1.system.ports) (SameHost d0) _
                    (λ u. trans d0 q.1.system.ports u.1.system.ports same)
                    (connect_rings-SameIds fuel handler r.0 q.0 q.1))
                (weaken-Then (SameHost r.1.ports) (SameHost d0) _
                  (λ u. trans d0 r.1.ports u.1.system.ports allocated)
                  (create_contexts-SameIds fuel (locate D P R p (bar_address P p 0x10 d).0 s.regs).0
                    _))))
            (map_all (λ r. Same d0 r.1.ports) _ _ (λ k. mapped)))
        (map_all (λ t. Same d0 t.ports) _ _ (λ m. starts))
