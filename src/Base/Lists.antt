-- ===== src/Base/Lists.antt =====
-- Lists under Boolean tests and measured by native numbers.
use Prim.Native.Nat.{ℕ, zero, suc, ◌+◌, min}
use mathlib.Core.Path.{◌≡◌, refl, ap}
use mathlib.Core.Bool.{Bool, true, false, ◌||◌}
use mathlib.Core.List.{List, [], ◌∷◌, ◌++◌, map}
use mathlib.Core.Option.{Option, none, some}
use native.Mathlib.Omega.{arith}
use usbip_ice.Base.Tests.{◌==◌, if◌then◌else◌}

module _ {ℓ} {A : Type ℓ} where
  abbrev pub length : List A → ℕ
  length [] = 0
  length (x ∷ xs) = suc (length xs)

  abbrev pub take : ℕ → List A → List A
  take zero xs = []
  take (suc n) [] = []
  take (suc n) (x ∷ xs) = x ∷ take n xs

  abbrev pub filter : (A → Bool) → List A → List A
  filter p [] = []
  filter p (x ∷ xs) = if p x then x ∷ filter p xs else filter p xs

  abbrev pub is_empty : List A → Bool
  is_empty [] = true
  is_empty (x ∷ xs) = false

  abbrev pub get_elem? : List A → ℕ → Option A
  get_elem? [] i = none
  get_elem? (x ∷ xs) zero = some x
  get_elem? (x ∷ xs) (suc i) = get_elem? xs i

  -- A write out of bounds changes nothing.
  abbrev pub set : List A → ℕ → A → List A
  set [] i v = []
  set (x ∷ xs) zero v = v ∷ xs
  set (x ∷ xs) (suc i) v = x ∷ set xs i v

  abbrev pub replicate : ℕ → A → List A
  replicate zero a = []
  replicate (suc n) a = a ∷ replicate n a

  pub length-append : (xs ys : List A) → length (xs ++ ys) ≡ length xs + length ys
  length-append [] ys = omega arith
  length-append (x ∷ xs) ys = omega (arith, length-append xs ys)

  pub length-take : (n : ℕ) (xs : List A) → length (take n xs) ≡ min n (length xs)
  length-take zero xs = omega arith
  length-take (suc n) [] = omega arith
  length-take (suc n) (x ∷ xs) = omega (arith, length-take n xs)

module _ {ℓ κ} {A : Type ℓ} {B : Type κ} where
  pub length-map : (f : A → B) (xs : List A) → length (map f xs) ≡ length xs
  length-map f [] = refl
  length-map f (x ∷ xs) = ap suc (length-map f xs)

  -- The results of `f` that are there, in order.
  abbrev pub filter_map : (A → Option B) → List A → List B
  filter_map f [] = []
  filter_map f (x ∷ xs) = elim (f x) [ none ↦ filter_map f xs | some y ↦ y ∷ filter_map f xs ]

-- `k in xs`
abbrev pub contains : ℕ → List ℕ → Bool
contains k [] = false
contains k (x ∷ xs) = k == x || contains k xs

pub contains-append :
    (k : ℕ) (xs ys : List ℕ) → contains k (xs ++ ys) ≡ (contains k xs || contains k ys)
contains-append k [] ys = refl
contains-append k (x ∷ xs) ys = ground (arith, contains-append k xs ys)

-- No number stands in the list twice.
abbrev pub Unique : List ℕ → Type 0
Unique [] = Unit
Unique (x ∷ xs) = (contains x xs ≡ false) × Unique xs

-- Every number of the first list is in the second.
abbrev pub Within : List ℕ → List ℕ → Type 0
Within xs ys = (k : ℕ) → contains k xs ≡ true → contains k ys ≡ true

-- No number of the first list is in the second.
abbrev pub Apart : List ℕ → List ℕ → Type 0
Apart xs ys = (k : ℕ) → contains k xs ≡ true → contains k ys ≡ false

pub Unique-append : (xs ys : List ℕ) → Unique xs → Unique ys → Apart ys xs → Unique (xs ++ ys)
Unique-append [] ys u w a = w
Unique-append (x ∷ xs) ys u w a = (
  rw contains-append (ground (arith, a x, u.0)),
  Unique-append xs ys u.1 w (λ k h. ground (arith, a k h)),
)

module _ {ℓ} {A : Type ℓ} (f : A → ℕ) (p : A → Bool) where
  pub contains-map-filter :
      (k : ℕ) (xs : List A) → contains k (map f (filter p xs)) ≡ true → contains k (map f xs) ≡ true
  contains-map-filter k [] h = h
  contains-map-filter k (x ∷ xs) h = ground (arith, contains-map-filter k xs)

  pub Unique-map-filter : (xs : List A) → Unique (map f xs) → Unique (map f (filter p xs))
  Unique-map-filter [] u = u
  Unique-map-filter (x ∷ xs) u =
      ground (arith, contains-map-filter (f x) xs, Unique-map-filter xs u.1)

module _ {ℓ} {A : Type ℓ} (f : A → ℕ) where
  pub contains-map-take :
      (k n : ℕ) (xs : List A) → contains k (map f (take n xs)) ≡ true → contains k (map f xs) ≡ true
  contains-map-take k zero xs h = cc
  contains-map-take k (suc n) [] h = h
  contains-map-take k (suc n) (x ∷ xs) h = ground (arith, contains-map-take k n xs)

  pub Unique-map-take : (n : ℕ) (xs : List A) → Unique (map f xs) → Unique (map f (take n xs))
  Unique-map-take zero xs u = tt
  Unique-map-take (suc n) [] u = u
  Unique-map-take (suc n) (x ∷ xs) u =
      ground (arith, contains-map-take (f x) n xs, Unique-map-take n xs u.1)
