-- ===== src/Vmm/Entry.antt =====
-- What the writers of page table entries leave in each field.
use gewodsys.Base.{ℕ, zero, suc, ◌+◌, ◌*◌, ◌/◌, ◌%◌, ◌^◌, ◌<◌, ◌≡◌, refl, ap₂, ◌∙◌, arith, word64}
use gewodsys.Rt.{Mem, load, zero_memory}
use gewodsys.Rt.Words.{Apart}
use gewodsys.Rt.Copy.{load8-zero_memory}
use gewodsys.Vmm.{get_page_indices, pointing, present, page_ppn}

-- The four indices and the offset in the page make up the low 48 bits of an address.
pub get_page_indices_lem :
    (address : ℕ)
    → let i = get_page_indices address in
      (i.pdp * 2 ^ 39 + i.pd * 2 ^ 30 + i.pt * 2 ^ 21 + i.p * 2 ^ 12 + address % 2 ^ 12
        ≡ address % 2 ^ 48)
      × (i.pdp < 512)
      × (i.pd < 512)
      × (i.pt < 512)
      × (i.p < 512)
unfolding get_page_indices
get_page_indices_lem address = (omega arith, omega arith, omega arith, omega arith, omega arith)

pub pointing-lt : (address w : ℕ) → w < word64 → pointing address w < word64
unfolding pointing
pointing-lt address w h = omega arith

-- An entry that is written points at the frame that the low 40 bits of the address name.
pub page_ppn-pointing : (address w : ℕ) → page_ppn (pointing address w) ≡ address / 2 ^ 12 % 2 ^ 28
unfolding pointing
page_ppn-pointing address w = omega arith

pub present-pointing : (address w : ℕ) → present (pointing address w) ≡ 1
unfolding pointing
present-pointing address w = omega arith

load8s-zero : (w a b n : ℕ) (m : Mem) → Apart a n b w → load w b (zero_memory a n m) ≡ load w b m
unfolding load
load8s-zero zero a b n m apart = refl
load8s-zero (suc w) a b n m apart =
    ap₂ (λ x y. x + 256 * y) (load8-zero_memory a n b m ∙ ground arith)
      (load8s-zero w a (b + 1) n m (grind arith))

-- Zeroing memory changes no word outside it.
pub load-zero_memory_ne :
    (w a b n : ℕ) (m : Mem) → Apart a n b w → load w b (zero_memory a n m) ≡ load w b m
load-zero_memory_ne = load8s-zero
