-- ===== src/Circuit/Periods.antt =====
-- When a generated circuit raises its output.
use usbip_ice.Base.{
  ℕ, zero, suc, ◌+◌, ◌-◌, ◌≤◌, ◌<◌, ◌≡◌, refl, ap, ◌∙◌, sym, Bool, false, leb, ◌==◌, arith,
  if◌then◌else◌, Bool-cases, inl, inr,
}
use Prim.Native.Nat.{◌/◌, ◌%◌, ◌^◌}
use native.Mathlib.Nat.{mod-lt, mod-eq_of_lt, mod-add-mod, mod_self}
use usbip_ice.Circuit.{increment, Circuit, posedge, cycles}

cycles_last : (incr n : ℕ) (c : Circuit) → cycles incr (suc n) c ≡ posedge incr (cycles incr n c)
cycles_last incr zero c = refl
cycles_last incr (suc n) c = cycles_last incr n (posedge incr c)

-- The next number's remainder.
mod-suc : (n p : ℕ) → 1 ≤ p → suc n % p ≡ (if leb (p - 1) (n % p) then 0 else n % p + 1)
mod-suc n p h = elim (Bool-cases (leb (p - 1) (n % p))) [
  | inl e ↦ rw e (
      ap (λ m. m % p) (omega arith)
      ∙ sym (mod-add-mod n p 1)
      ∙ ap (λ m. m % p) (ground (arith, mod-lt n h))
      ∙ mod_self p)
  | inr e ↦ rw e (
      ap (λ m. m % p) (omega arith)
      ∙ sym (mod-add-mod n p 1)
      ∙ mod-eq_of_lt (ground (arith, mod-lt n h)))
]

abbrev start : Bool → Circuit
start out = record { counter = 0; out = out }

module _ (p : ℕ) (has : 1 ≤ p) where
  -- The counter counts modulo the period, where its bits hold that.
  counter-mod : (n : ℕ) (out : Bool) → p ≤ 2 ^ 23 → (cycles (p - 1) n (start out)).counter ≡ n % p
  unfolding posedge
  counter-mod zero out b = sym (mod-eq_of_lt has)
  counter-mod (suc n) out b =
      rw (cycles_last (p - 1) n (start out))
        (ground (arith, counter-mod n out b, mod-suc n p has, mod-lt n has))

  raises-mod :
      (n : ℕ) (out : Bool)
      → p ≤ 2 ^ 23
      → (cycles (p - 1) (suc n) (start out)).out ≡ (suc n % p == 0)
  unfolding posedge
  raises-mod n out b =
      rw (cycles_last (p - 1) n (start out))
        (ground (arith, counter-mod n out b, mod-suc n p has, mod-lt n has))

  -- A counter of 23 bits never reaches an increment that is too large for it.
  counter-low : (n : ℕ) (out : Bool) → 2 ^ 23 < p → (cycles (p - 1) n (start out)).counter < 2 ^ 23
  unfolding posedge
  counter-low zero out b = omega arith
  counter-low (suc n) out b =
      rw (cycles_last (p - 1) n (start out)) (ground (arith, counter-low n out b))

  raises_never :
      (n : ℕ) (out : Bool) → 2 ^ 23 < p → (cycles (p - 1) (suc n) (start out)).out ≡ false
  unfolding posedge
  raises_never n out b =
      rw (cycles_last (p - 1) n (start out)) (ground (arith, counter-low n out b))

-- Let the frequency be at most that of the clock, so that the clock has at least one cycle in
-- `clk / hz`, and let the counter start at 0. If `clk / hz` is at most 2 ^ 23, then after a
-- positive number of cycles the output is high exactly when that number is a multiple of `clk /
-- hz`; if `clk / hz` is more, which the counter cannot hold, then the output is low after each
-- cycle.
pub cycles-raise :
    (hz clk n : ℕ) (out : Bool)
    → 1 ≤ clk / hz
    → (cycles (increment hz clk) (suc n) (record { counter = 0; out = out })).out
      ≡ (if leb (clk / hz) (2 ^ 23) then (suc n % (clk / hz) == 0) else false)
unfolding increment
cycles-raise hz clk n out h = elim (Bool-cases (leb (clk / hz) (2 ^ 23))) [
  | inl e ↦ rw e (raises-mod (clk / hz) h n out (ground (arith, e)))
  | inr e ↦ rw e (raises_never (clk / hz) h n out (ground (arith, e)))
]
