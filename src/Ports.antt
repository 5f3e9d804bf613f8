-- ===== src/Ports.antt =====
-- The port instructions of kernel/cpu/intel.h, `IoOut8` and so on. What lies behind the ports is no
-- part of the kernel, so it is a parameter.
use gewodsys.Base.{ℕ, ◌+◌, ◌*◌, ◌^◌, ◌<◌, ◌≡◌, ◌%◌, ◌/◌, Bool, ◌&&◌, ◌||◌, ◌==◌, if◌then◌else◌}

pub record Ports : Type 1 where
  pub Dev : Type 0
  pub out8 : ℕ → ℕ → Dev → Dev
  pub out16 : ℕ → ℕ → Dev → Dev
  pub out32 : ℕ → ℕ → Dev → Dev
  pub in8 : ℕ → Dev → ℕ × Dev
  pub in32 : ℕ → Dev → ℕ × Dev

-- The registers that a device shows in memory, in accesses of one, four and eight bytes. A read may
-- change the device.
pub record Mmio : Type 1 where
  pub Dev : Type 0
  pub put32 : ℕ → ℕ → Dev → Dev
  pub put64 : ℕ → ℕ → Dev → Dev
  pub take8 : ℕ → Dev → ℕ × Dev
  pub take32 : ℕ → Dev → ℕ × Dev

module _ (P : Ports) where
  open P use {Dev, out8, out16, out32, in8, in32}

  -- The configuration mechanism that the PCI specification calls the first: the address register at
  -- 0xCF8 chooses four bytes, which the data register at 0xCFC shows. A byte is plain if it keeps
  -- what is written to it, as the command register and the base address registers do.
  pub record HasConfig : Type 0 where
    pub byte : ℕ → ℕ → Dev → ℕ
    pub plain : ℕ → ℕ → Bool
    pub byte-lt : (a k : ℕ) (d : Dev) → byte a k d < 256
    -- Choosing an address changes no byte.
    pub byte-select : (a b j : ℕ) (d : Dev) → byte b j (out32 0xCF8 a d) ≡ byte b j d
    pub in8-data : (a k : ℕ) (d : Dev) → k < 4 → (in8 (0xCFC + k) (out32 0xCF8 a d)).0 ≡ byte a k d
    pub in8-keeps :
        (a k b j : ℕ) (d : Dev)
        → k < 4
        → byte b j (in8 (0xCFC + k) (out32 0xCF8 a d)).1 ≡ byte b j d
    pub in32-data :
        (a : ℕ) (d : Dev)
        → (in32 0xCFC (out32 0xCF8 a d)).0
          ≡ byte a 0 d + 2 ^ 8 * byte a 1 d + 2 ^ 16 * byte a 2 d + 2 ^ 24 * byte a 3 d
    pub in32-keeps : (a b j : ℕ) (d : Dev) → byte b j (in32 0xCFC (out32 0xCF8 a d)).1 ≡ byte b j d
    -- A write reaches the chosen bytes alone, and sets those that are plain.
    pub out8-data :
        (a k v b j : ℕ) (d : Dev)
        → k < 4
        → v < 256
        → byte b j (out8 (0xCFC + k) v (out32 0xCF8 a d))
          ≡ (if b == a && j == k && plain a k then v else byte b j d)
    pub out16-data :
        (a k v b j : ℕ) (d : Dev)
        → k < 3
        → v < 2 ^ 16
        → byte b j (out16 (0xCFC + k) v (out32 0xCF8 a d)) ≡ (
            if b == a && (j == k || j == k + 1) && plain a j
            then (if j == k then v % 256 else v / 256)
            else byte b j d)
