-- ===== src/Vmm/Permissions.antt =====
-- `MmSetPagePermissions`, `MmGetPagePermissions`, `MmPageSet` and `MmPageClear`.
use gewodsys.Base.{
  ℕ, ◌-◌, ◌*◌, ◌/◌, ◌%◌, ◌^◌, ◌<◌, bit_and, bit_or, ◌≡◌, refl, true, ◌&&◌, arith, ltb, ◌==◌, ltb→lt,
  ==_iff, word64, with_field, all_below_sound, all_below,
}
use gewodsys.Rt.{load, store}
use gewodsys.Rt.Words.{load-store_ne, load-store_self, load-lt, Apart}
use gewodsys.Vmm.{
  Machine, get_page_indices, entry_at, below, leaf_at, page_ppn, writeable, user_access,
  cache_disabled, execution_disabled, permissions_of, set_page_permissions, get_page_permissions,
  page_set, page_clear, get_physical_address,
}

-- The entry of the address lies apart from the three entries that lead to it.
pub record IsSeparate (address : ℕ) (s : Machine) : Type 0 where
  pub from_pml4 : Apart (leaf_at address s) 8 (entry_at s.pml4 (get_page_indices address).pdp) 8
  pub from_pdp :
      Apart
        (leaf_at address s)
        8
        (entry_at (below s.pml4 (get_page_indices address).pdp s.mem) (get_page_indices address).pd)
        8
  pub from_pd :
      Apart
        (leaf_at address s)
        8
        (entry_at
          (below
            (below s.pml4 (get_page_indices address).pdp s.mem)
            (get_page_indices address).pd
            s.mem)
          (get_page_indices address).pt)
        8

-- The write to a page's entry does not move it.
leaf_at-store :
    (address v : ℕ) (s : Machine)
    → IsSeparate address s
    → leaf_at address (record s { mem = store 8 (leaf_at address s) v s.mem }) ≡ leaf_at address s
unfolding leaf_at
leaf_at-store address v s apart = rw (
  load-store_ne 8 8 (leaf_at address s) v _ s.mem apart.from_pml4,
  load-store_ne 8 8 (leaf_at address s) v _ s.mem apart.from_pdp,
  load-store_ne 8 8 (leaf_at address s) v _ s.mem apart.from_pd,
)

abbrev with_permissions : ℕ → ℕ → ℕ
with_permissions permissions pte = with_field 4 1 (bit_and permissions 8 / 2 ^ 3) (
    with_field 63 1 (bit_and permissions 4 / 2 ^ 2)
      (with_field 2 1 (bit_and permissions 2 / 2) (with_field 1 1 (bit_and permissions 1) pte)))

abbrev bits_of : ℕ → ℕ
bits_of p =
    bit_or
      (bit_or (bit_or (bit_and p 1 % 2) (bit_and p 2 / 2 % 2 * 2))
        (bit_and p 4 / 2 ^ 2 % 2 * 2 ^ 2))
      (bit_and p 8 / 2 ^ 3 % 2 * 2 ^ 3)

bits_table : all_below 256 (λ p. bits_of p == p % 16) ≡ true
unfolding all_below
bits_table = refl

permissions_of-with_permissions :
    (p pte : ℕ) → p < 256 → permissions_of (with_permissions p pte) ≡ p % 16
unfolding permissions_of
permissions_of-with_permissions p pte small =
    let w : writeable (with_permissions p pte) ≡ bit_and p 1 % 2 = omega arith in
    let u : user_access (with_permissions p pte) ≡ bit_and p 2 / 2 % 2 = omega arith in
    let x : execution_disabled (with_permissions p pte) ≡ bit_and p 4 / 2 ^ 2 % 2 = omega arith in
    let c : cache_disabled (with_permissions p pte) ≡ bit_and p 8 / 2 ^ 3 % 2 = omega arith in
    rw (w, u, x, c)
      ((==_iff _ _).0 (all_below_sound 256 (λ q. bits_of q == q % 16) p bits_table small))

-- Where a page's entry lies apart from the three entries that lead to it, setting the page's permissions
-- and reading them gives back the four that were given. The page stays mapped where it was, and no word
-- of memory apart from its entry changes.
pub get_page_permissions-set :
    (address p : ℕ) (s : Machine)
    → IsSeparate address s
    → p < 256
    → let s' = set_page_permissions address p s in
      (get_page_permissions address s' ≡ p % 16)
      × (get_physical_address address s' ≡ get_physical_address address s)
      × ((a : ℕ) → Apart (leaf_at address s) 8 a 8 → load 8 a s'.mem ≡ load 8 a s.mem)
unfolding set_page_permissions get_page_permissions get_physical_address
get_page_permissions-set address p s apart small =
    let at : ℕ = leaf_at address s in
    let pte : ℕ = load 8 at s.mem in
    let v : ℕ = with_permissions p pte in
    let wide : v < word64 = omega (arith, load-lt 8 at s.mem) in
    let ppn : page_ppn v ≡ page_ppn pte = omega arith in
    let same = leaf_at-store address v s apart in
    let read = load-store_self 8 at v s.mem wide in
    (
      rw (same, read) (permissions_of-with_permissions p pte small),
      rw (same, read, ppn),
      λ a far. load-store_ne 8 8 at v a s.mem far,
    )

abbrev packed : ℕ → ℕ → ℕ → ℕ → ℕ
packed w u x c = bit_or (bit_or (bit_or w (u * 2)) (x * 2 ^ 2)) (c * 2 ^ 3)

packed_table :
    all_below 2 (λ w. all_below 2 λ u. all_below 2 λ x. all_below 2 λ c. ltb (packed w u x c) 16)
    ≡ true
unfolding all_below
packed_table = refl

permissions_of-lt : (pte : ℕ) → permissions_of pte < 16
unfolding permissions_of
permissions_of-lt pte =
    let w : ℕ = writeable pte in
    let u : ℕ = user_access pte in
    let x : ℕ = execution_disabled pte in
    ltb→lt _ _ (
      all_below_sound 2 (λ c. ltb (packed w u x c) 16) (cache_disabled pte)
        (all_below_sound 2 (λ y. all_below 2 λ c. ltb (packed w u y c) 16) x
          (all_below_sound 2 (λ y. all_below 2 λ z. all_below 2 λ c. ltb (packed w y z c) 16) u
            (all_below_sound 2
              (λ y. all_below 2 λ q. all_below 2 λ z. all_below 2 λ c. ltb (packed y q z c) 16) w
              packed_table (omega arith))
            (omega arith))
          (omega arith))
        (omega arith))

byte_table :
    all_below 16 (λ p. all_below 256 λ b. ltb (bit_or p b) 256 && ltb (bit_and p (255 - b)) 256)
    ≡ true
unfolding all_below
byte_table = refl

byte_bounds : (p b : ℕ) → p < 16 → b < 256 → (bit_or p b < 256) × (bit_and p (255 - b) < 256)
byte_bounds p b hp hb = ground (
  arith,
  all_below_sound 256 (λ c. ltb (bit_or p c) 256 && ltb (bit_and p (255 - c)) 256) b
      (all_below_sound 16
        (λ q. all_below 256 λ c. ltb (bit_or q c) 256 && ltb (bit_and q (255 - c)) 256) p byte_table
        hp)
      hb,
)

-- Under the same condition `MmPageSet` adds the given bits to a page's permissions and `MmPageClear` takes them away, as far
-- as they are among the four; the page stays mapped where it was.
pub page_ops-permissions :
    (address bits : ℕ) (s : Machine)
    → IsSeparate address s
    → bits < 256
    → let old = get_page_permissions address s in
      (get_page_permissions address (page_set address bits s) ≡ bit_or old bits % 16)
      × (get_page_permissions address (page_clear address bits s) ≡ bit_and old (255 - bits) % 16)
      × (get_physical_address address (page_set address bits s) ≡ get_physical_address address s)
      × (get_physical_address address (page_clear address bits s) ≡ get_physical_address address s)
unfolding page_set page_clear
page_ops-permissions address bits s apart small =
    let bounds = byte_bounds (get_page_permissions address s) bits (old_small address s) small in
    let added =
      get_page_permissions-set address (bit_or (get_page_permissions address s) bits) s apart
        bounds.0 in
    let taken =
      get_page_permissions-set address (bit_and (get_page_permissions address s) (255 - bits)) s
        apart bounds.1 in
    (added.0, taken.0, added.1, taken.1)
  where
    old_small : (a : ℕ) (t : Machine) → get_page_permissions a t < 16
    old_small a t = unfold get_page_permissions in permissions_of-lt (load 8 (leaf_at a t) t.mem)
