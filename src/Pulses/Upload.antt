-- ===== src/Pulses/Upload.antt =====
-- The upload of a bitstream to its board, a part of `run` of
-- src/usbipice/worker/device/state/reservable/PulseCountState.py.
pub mod Chunks
use usbip_ice.Base.{ℕ, zero, suc, ◌+◌, ◌-◌, List, [], ◌∷◌, map, ltb, if◌then◌else◌, length, take}

-- `CHUNK_SIZE`
abbrev pub chunk_size : ℕ
chunk_size = 512

module _ {A : Type 0} where
  abbrev pub drop : ℕ → List A → List A
  drop zero xs = xs
  drop (suc n) [] = []
  drop (suc n) (x ∷ xs) = drop n xs

  -- `data[i:j]`
  abbrev pub slice : List A → ℕ → ℕ → List A
  slice xs i j = take (j - i) (drop i xs)

-- `range(i, stop, step)`: the fuel bounds the number of its elements.
pub range : ℕ → ℕ → ℕ → ℕ → List ℕ
range zero i stop step = []
range (suc fuel) i stop step =
    let rest = range fuel (i + step) stop step in if ltb i stop then i ∷ rest else []

module _ {A : Type 0} where
  -- The chunks of `size` bytes. As many turns as the data has bytes are enough.
  pub chunks : ℕ → List A → List (List A)
  unfolding range
  chunks size data_ =
      map (λ i. slice data_ i (i + size)) (range (length data_) 0 (length data_) size)

  -- The loop over the data of a bitstream: what is written to the serial port, in its order
  unfoldable pub upload : List A → List (List A)
  unfolding chunks
  upload data_ = chunks chunk_size data_
