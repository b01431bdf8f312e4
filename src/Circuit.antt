-- ===== src/Circuit.antt =====
-- `generate_circuit` of src/usbipice/utils/utils.py: the circuit that it writes for a frequency,
-- with its counter of 23 bits. The frequencies are whole numbers, and the tools that build are
-- left out.
pub mod Periods
use usbip_ice.Base.{
  ℕ, zero, suc, ◌+◌, ◌-◌, Bool, true, false, not, Option, none, some, leb, ◌==◌, if◌then◌else◌,
}
use Prim.Native.Nat.{◌*◌, ◌/◌, ◌%◌, ◌^◌}

-- `incr`: `int` cuts off the fraction, also of a negative number.
pub increment : ℕ → ℕ → ℕ
increment hz clk = clk / hz - 1

-- The registers
pub record Circuit : Type 0 where
  pub counter : ℕ
  pub out : Bool

-- What the registers are after a clock edge: the later assignment of `counter` counts.
pub posedge : ℕ → Circuit → Circuit
posedge incr c =
    if leb incr c.counter
    then record { counter = 0; out = true }
    else record { counter = (c.counter + 1) % 2 ^ 23; out = false }

abbrev pub cycles : ℕ → ℕ → Circuit → Circuit
cycles incr zero c = c
cycles incr (suc n) c = cycles incr n (posedge incr c)

-- The frequency in kHz that is returned, as a quotient; there is none where `clk / incr` raises.
unfoldable pub frequency : ℕ → ℕ → Option (ℕ × ℕ)
unfolding increment
frequency hz clk =
    let incr = increment hz clk in if incr == 0 then none else some (clk, incr * 1000)
