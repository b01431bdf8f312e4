-- ===== src/Pulses/Upload/Chunks.antt =====
-- The chunks of an upload.
use usbip_ice.Base.{
  ℕ, zero, suc, ◌+◌, ◌-◌, ◌≤◌, ◌<◌, ◌≡◌, refl, sym, ap, ◌∙◌, List, [], ◌∷◌, ◌++◌, map, arith, ltb,
  length, take, length-take, Bool-cases, inl, inr,
}
use usbip_ice.Pulses.Upload.{drop, slice, range, chunks, upload}

suc_out : (m n : ℕ) → suc (m + n) ≡ suc m + n
suc_out m n = omega arith

module _ {A : Type 0} where
  abbrev concat : List (List A) → List A
  concat [] = []
  concat (xs ∷ xss) = xs ++ concat xss

  -- Every chunk has at least one byte and at most `size`.
  abbrev AreSized : ℕ → List (List A) → Type 0
  AreSized size [] = Unit
  AreSized size (xs ∷ xss) = (1 ≤ length xs) × (length xs ≤ size) × AreSized size xss

  take-drop : (n : ℕ) (xs : List A) → take n xs ++ drop n xs ≡ xs
  take-drop zero xs = refl
  take-drop (suc n) [] = refl
  take-drop (suc n) (x ∷ xs) = ap (λ l. x ∷ l) (take-drop n xs)

  drop_all : (n : ℕ) (xs : List A) → length xs ≤ n → drop n xs ≡ []
  drop_all zero [] h = refl
  drop_all zero (x ∷ xs) h = ground (arith, h)
  drop_all (suc n) [] h = refl
  drop_all (suc n) (x ∷ xs) h = drop_all n xs (omega arith)

  drop-drop : (m n : ℕ) (xs : List A) → drop n (drop m xs) ≡ drop (m + n) xs
  drop-drop zero n xs = ap (λ m. drop m xs) (omega arith)
  drop-drop (suc m) zero [] = sym (drop_all (suc m + 0) [] (omega arith))
  drop-drop (suc m) (suc n) [] = sym (drop_all (suc m + suc n) [] (omega arith))
  drop-drop (suc m) n (x ∷ xs) = drop-drop m n xs ∙ ap (λ j. drop j (x ∷ xs)) (suc_out m n)

  length-drop : (n : ℕ) (xs : List A) → length (drop n xs) ≡ length xs - n
  length-drop zero xs = omega arith
  length-drop (suc n) [] = omega arith
  length-drop (suc n) (x ∷ xs) = length-drop n xs ∙ omega arith

  slice-drop : (size i : ℕ) (xs : List A) → slice xs i (i + size) ++ drop (i + size) xs ≡ drop i xs
  slice-drop size i xs =
      ap (λ n. take n (drop i xs) ++ drop (i + size) xs) (omega arith)
      ∙ ap (λ l. take size (drop i xs) ++ l) (sym (drop-drop i size xs))
      ∙ take-drop size (drop i xs)

  slice-length :
      (size i : ℕ) (xs : List A)
      → 1 ≤ size
      → i < length xs
      → (1 ≤ length (slice xs i (i + size))) × (length (slice xs i (i + size)) ≤ size)
  slice-length size i xs pos h =
      ground (arith, length-take ((i + size) - i) (drop i xs), length-drop i xs)

  -- With enough turns left, the chunks from a place on are the rest of the data.
  range-concat :
      (size fuel i : ℕ) (xs : List A)
      → 1 ≤ size
      → length xs ≤ i + fuel
      → let parts = map (λ j. slice xs j (j + size)) (range fuel i (length xs) size) in
        (concat parts ≡ drop i xs) × AreSized size parts
  unfolding range
  range-concat size zero i xs pos enough = (sym (drop_all i xs (omega arith)), tt)
  range-concat size (suc fuel) i xs pos enough =
      let (rest, sized) = range-concat size fuel (i + size) xs pos (omega arith) in
      elim (Bool-cases (ltb i (length xs))) [
        | inl e ↦
            let (some_bytes, few) = slice-length size i xs pos (ground (arith, e)) in
            rw e (
              ap (λ l. slice xs i (i + size) ++ l) rest ∙ slice-drop size i xs,
              (some_bytes, few, sized),
            )
        | inr e ↦ rw e (sym (drop_all i xs (ground (arith, e))), tt)
      ]

  -- What is written to the board is the data of the bitstream, whole and in order, in chunks of at
  -- least one byte and at most 512.
  upload-concat : (xs : List A) → (concat (upload xs) ≡ xs) × AreSized 512 (upload xs)
  unfolding upload chunks
  upload-concat xs = range-concat 512 (length xs) 0 xs (omega arith) (omega arith)
