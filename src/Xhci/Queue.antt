-- ===== src/Xhci/Queue.antt =====
-- A ring is a queue: the blocks on it in the order in which the driver adds them.
use gewodsys.Base.{
  ℕ, suc, ◌+◌, ◌-◌, ◌*◌, ◌^◌, ◌≤◌, ◌<◌, ◌≡◌, ◌≢◌, ap, ◌∙◌, inl, inr, arith, Bool-cases, ◌==◌, ltb,
  if◌then◌else◌, List, [], ◌∷◌, ◌++◌, length, length-append, word32,
}
use gewodsys.Base.Int.{pos}
use gewodsys.Rt.{Mem}
use gewodsys.Vmm.{Machine, get_physical_address}
use gewodsys.Xhci.{Ring, Added, cycle_of, trb_type, trb_at, link_to, ring_add}
use gewodsys.Xhci.Blocks.{stamp, Outcome, ring_add-Outcome}

-- The slot and the cycle bit `x` steps behind the first slot with the bit `c`; the last of the `n`
-- slots is that of the link.
abbrev pub slot : ℕ → ℕ → ℕ
slot n x = if ltb x (n - 1) then x else x - (n - 1)

abbrev pub phase : ℕ → ℕ → ℕ → ℕ
phase n c x = if ltb x (n - 1) then c else 1 - c

-- The blocks from `x` steps on are those of the list, with their cycle bits.
abbrev pub Blocks : ℕ → ℕ → ℕ → ℕ → List ℕ → Mem → Type 0
Blocks ptr n c x [] m = Unit
Blocks ptr n c x (t ∷ ts) m =
    (trb_at ptr (slot n x) m ≡ stamp (phase n c x) t) × Blocks ptr n c (x + 1) ts m

-- A ring with the blocks of `q` on it, of which the first lies in slot `i` and has the cycle bit `c`.
-- The other slots have the other bit than the one that makes a block valid there.
pub record IsQueue (r : Ring) (s : Machine) (i c : ℕ) (q : List ℕ) (m : Mem) : Type 0 where
  pub fits : r.max_index < word32
  pub inside : i < r.max_index - 1
  pub bit : c < 2
  pub room : length q ≤ r.max_index - 1
  pub index : r.index ≡ slot r.max_index (i + length q)
  pub cycle : r.cycle ≡ phase r.max_index c (i + length q)
  pub blocks : Blocks r.ptr r.max_index c i q m
  pub free :
      (k : ℕ)
      → length q ≤ k
      → k < r.max_index - 1
      → cycle_of (trb_at r.ptr (slot r.max_index (i + k)) m) ≡ 1 - phase r.max_index c (i + k)
  pub link :
      r.max_index - 1 ≤ i + length q
      → trb_at r.ptr (r.max_index - 1) m ≡ link_to c (get_physical_address r.ptr s)

Blocks-keep :
    (ptr n c x : ℕ) (q : List ℕ) (m m' : Mem)
    → ((k : ℕ) → k < length q → trb_at ptr (slot n (x + k)) m' ≡ trb_at ptr (slot n (x + k)) m)
    → Blocks ptr n c x q m
    → Blocks ptr n c x q m'
Blocks-keep ptr n c x [] m m' same b = tt
Blocks-keep ptr n c x (t ∷ q) m m' same b =
    let e : x + 0 ≡ x = omega arith in
    let first : trb_at ptr (slot n x) m' ≡ trb_at ptr (slot n x) m =
      rw e at (same 0 (omega arith)) in
    (
      first ∙ b.0,
      Blocks-keep ptr n c (x + 1) q m m'
          (λ k lt. let a : x + 1 + k ≡ x + suc k = omega arith in rw a (same (suc k) (omega arith)))
          b.1,
    )

Blocks-append :
    (ptr n c x t : ℕ) (q : List ℕ) (m : Mem)
    → Blocks ptr n c x q m
    → trb_at ptr (slot n (x + length q)) m ≡ stamp (phase n c (x + length q)) t
    → Blocks ptr n c x (q ++ (t ∷ [])) m
Blocks-append ptr n c x t [] m b last = let e : x + 0 ≡ x = omega arith in (rw e at last, tt)
Blocks-append ptr n c x t (u ∷ q) m b last =
    let e : x + suc (length q) ≡ x + 1 + length q = omega arith in
    (b.0, Blocks-append ptr n c (x + 1) t q m b.1 (rw e at last))

slot_step :
    (n x : ℕ)
    → x + 1 < 2 * (n - 1)
    → (if slot n x + 1 == n - 1 then 0 else slot n x + 1) ≡ slot n (x + 1)
slot_step n x h = ground arith

phase_step :
    (n c x : ℕ)
    → x + 1 < 2 * (n - 1)
    → (if slot n x + 1 == n - 1 then 1 - phase n c x else phase n c x) ≡ phase n c (x + 1)
phase_step n c x h = ground arith

slot_ne :
    (n i j k : ℕ) → i < n - 1 → j < n - 1 → k < n - 1 → j ≢ k → slot n (i + j) ≢ slot n (i + k)
slot_ne n i j k hi hj hk ne same = ground arith

slot-lt : (n x : ℕ) → x < 2 * (n - 1) → slot n x < n - 1
slot-lt n x h = ground arith

Outcome-IsQueue :
    (r : Ring) (s : Machine) (i c t : ℕ) (q : List ℕ) (m : Mem) (a : Added)
    → Outcome r t s m a
    → IsQueue r s i c q m
    → length q < r.max_index - 1
    → IsQueue a.ring s i c (q ++ (t ∷ [])) a.mem
Outcome-IsQueue r s i c t q m a o v more =
    let n : ℕ = r.max_index in
    let l : ℕ = length q in
    let x : ℕ = i + l in
    let inside = v.inside in
    let longer : length (q ++ (t ∷ [])) ≡ l + 1 = length-append q (t ∷ []) in
    let past : i + (l + 1) ≡ x + 1 = omega arith in
    let near : x + 1 < 2 * (n - 1) = omega arith in
    let keep = λ (k : ℕ) (lt : k < n - 1) (ne : k ≢ l).
      o.others (slot n (i + k)) (slot-lt n (i + k) (omega arith))
        (λ same. slot_ne n i k l inside lt more ne (same ∙ v.index)) in
    record {
      fits = rw o.size v.fits;
      inside = rw o.size v.inside;
      bit = v.bit;
      room = rw (o.size, longer) (omega arith);
      index = rw (o.size, longer, past) (o.index ∙ rw v.index (slot_step n x near));
      cycle = rw (o.size, longer, past) (o.cycle ∙ rw (v.index, v.cycle) (phase_step n c x near));
      blocks =
          rw (o.ptr, o.size)
            (Blocks-append r.ptr n c i t q a.mem
              (Blocks-keep r.ptr n c i q m a.mem
                (λ k lt. keep k (omega arith) (λ same. omega (arith, same))) v.blocks)
              (rw (← v.index, ← v.cycle) o.here));
      free =
          rw (o.ptr, o.size, longer)
            (λ k lo hi.
              ap cycle_of (keep k hi (λ same. omega (arith, same))) ∙ v.free k (omega arith) hi);
      link =
          rw (o.ptr, o.size, longer)
            (λ le. o.link ∙ elim (Bool-cases (r.index + 1 == n - 1)) [
              | inl e ↦
                  let first : phase n c x ≡ c = ground (arith, v.index, e) in
                  let own : r.cycle ≡ c = v.cycle ∙ first in rw (e, own)
              | inr e ↦ rw e (v.link (ground (arith, v.index, e, le)))
            ]);
    }

-- Where the queue is not full, adding a block puts it behind the others.
pub ring_add-IsQueue :
    (r : Ring) (s : Machine) (i c t : ℕ) (q : List ℕ) (m : Mem)
    → IsQueue r s i c q m
    → length q < r.max_index - 1
    → trb_type t ≢ 0
    → t < 2 ^ 128
    → let a = ring_add r t s m in (a.result ≡ pos 0) × IsQueue a.ring s i c (q ++ (t ∷ [])) a.mem
ring_add-IsQueue r s i c t q m v more typed small =
    let n : ℕ = r.max_index in
    let inside = v.inside in
    let at : r.index < n - 1 = rw v.index (slot-lt n (i + length q) (omega arith)) in
    let bit : r.cycle < 2 = ground (arith, v.cycle, v.bit) in
    let o = ring_add-Outcome r t s m typed small bit at v.fits in
    (o.result, Outcome-IsQueue r s i c t q m (ring_add r t s m) o v more)

-- A ring at its start holds the empty queue, if the cycle bits of its blocks are clear.
pub fresh-IsQueue :
    (r : Ring) (s : Machine) (m : Mem)
    → 1 < r.max_index
    → r.max_index < word32
    → r.index ≡ 0
    → r.cycle ≡ 1
    → ((k : ℕ) → k < r.max_index - 1 → cycle_of (trb_at r.ptr k m) ≡ 0)
    → IsQueue r s 0 1 [] m
fresh-IsQueue r s m room fits start bit clear =
    let n : ℕ = r.max_index in
    record {
      fits = fits;
      inside = omega arith;
      bit = omega arith;
      room = omega arith;
      index = start ∙ ground arith;
      cycle = bit ∙ ground arith;
      blocks = tt;
      free = λ k lo hi.
          let at : slot n (0 + k) ≡ k = ground arith in
          let own : phase n 1 (0 + k) ≡ 1 = ground arith in rw (at, own) (clear k hi ∙ omega arith);
      link = λ le. absurd (omega arith);
    }
