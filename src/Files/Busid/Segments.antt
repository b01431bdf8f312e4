-- ===== src/Files/Busid/Segments.antt =====
-- Paths and their segments.
use usbip_ice.Base.{
  ℕ, ◌≡◌, refl, Bool, true, false, not, ◌&&◌, Option, none, some, List, [], ◌∷◌, ◌++◌, arith, ◌==◌,
  if◌then◌else◌,
}
use usbip_ice.Files.Busid.{
  is_digit, strip, strip_digit, after_usb, after_slash, until_separator, all_digits_or_dots,
  is_busid,
}

abbrev pub lacks : ℕ → List ℕ → Bool
lacks a [] = true
lacks a (c ∷ s) = not (c == a) && lacks a s

-- No segment has a slash.
abbrev pub are_segments : List (List ℕ) → Bool
are_segments [] = true
are_segments (seg ∷ segs) = lacks b'/' seg && are_segments segs

-- The path with these segments
abbrev pub spell : List (List ℕ) → List ℕ
spell [] = []
spell (seg ∷ segs) = b'/' ∷ (seg ++ spell segs)

-- `usb` and a digit
abbrev pub is_usb : List ℕ → Bool
is_usb (a ∷ b ∷ c ∷ d ∷ []) = a == b'u' && (b == b's' && (c == b'b' && is_digit d))
is_usb _ = false

abbrev pub until_colon : List ℕ → List ℕ
until_colon [] = []
until_colon (c ∷ s) = if c == b':' then [] else c ∷ until_colon s

-- What follows the segment of the controller: the second segment, as far as its colon, or the only
-- one, if it is a bus.
abbrev pub named : List (List ℕ) → Option (List ℕ)
named [] = none
named (x ∷ []) = if is_busid x then some x else none
named (x ∷ y ∷ segs) = some (until_colon y)

abbrev pub busid_of : List (List ℕ) → Option (List ℕ)
busid_of [] = none
busid_of (seg ∷ segs) = if is_usb seg then named segs else busid_of segs

pub after_usb_inside : (c : ℕ) (s : List ℕ) → (c == b'/') ≡ false → after_usb (c ∷ s) ≡ none
unfolding after_usb
after_usb_inside c s h = rw h refl

-- The text after the first segment's slash
abbrev pub following : List (List ℕ) → Option (List ℕ)
following [] = none
following (seg ∷ segs) = some (seg ++ spell segs)

strip-spell : (a : ℕ) (segs : List (List ℕ)) → (a == b'/') ≡ false → strip a (spell segs) ≡ none
strip-spell a [] h = refl
strip-spell a (seg ∷ segs) h = ground arith

strip_digit-spell : (segs : List (List ℕ)) → strip_digit (spell segs) ≡ none
strip_digit-spell [] = refl
strip_digit-spell (seg ∷ segs) = refl

strip_slash-spell : (segs : List (List ℕ)) → strip b'/' (spell segs) ≡ following segs
strip_slash-spell [] = refl
strip_slash-spell (seg ∷ segs) = refl

pub after_usb-spell :
    (seg : List ℕ) (segs : List (List ℕ))
    → lacks b'/' seg ≡ true
    → after_usb (spell (seg ∷ segs)) ≡ (if is_usb seg then following segs else none)
unfolding after_usb
after_usb-spell [] segs l = rw (strip-spell b'u' segs refl) refl
after_usb-spell (a ∷ []) segs l = ground (arith, strip-spell b's' segs refl)
after_usb-spell (a ∷ b ∷ []) segs l = ground (arith, strip-spell b'b' segs refl)
after_usb-spell (a ∷ b ∷ c ∷ []) segs l = ground (arith, strip_digit-spell segs)
after_usb-spell (a ∷ b ∷ c ∷ d ∷ []) segs l = ground (arith, strip_slash-spell segs)
after_usb-spell (a ∷ b ∷ c ∷ d ∷ e ∷ seg) segs l = ground arith

pub after_slash-spell :
    (x : List ℕ) (segs : List (List ℕ))
    → lacks b'/' x ≡ true
    → after_slash (x ++ spell segs) ≡ following segs
after_slash-spell [] [] l = refl
after_slash-spell [] (seg ∷ segs) l = refl
after_slash-spell (c ∷ x) segs l = ground (arith, after_slash-spell x segs)

pub until_separator-spell :
    (y : List ℕ) (segs : List (List ℕ))
    → lacks b'/' y ≡ true
    → until_separator (y ++ spell segs) ≡ until_colon y
until_separator-spell [] [] l = refl
until_separator-spell [] (seg ∷ segs) l = refl
until_separator-spell (c ∷ y) segs l = ground (arith, until_separator-spell y segs)

all_digits_or_dots-spell :
    (x y : List ℕ) (segs : List (List ℕ)) → all_digits_or_dots (x ++ spell (y ∷ segs)) ≡ false
all_digits_or_dots-spell [] y segs = refl
all_digits_or_dots-spell (c ∷ x) y segs = ground (arith, all_digits_or_dots-spell x y segs)

pub is_busid-spell :
    (x y : List ℕ) (segs : List (List ℕ)) → is_busid (x ++ spell (y ∷ segs)) ≡ false
is_busid-spell [] [] [] = refl
is_busid-spell [] [] (z ∷ segs) = ground arith
is_busid-spell [] (a ∷ []) [] = refl
is_busid-spell [] (a ∷ []) (z ∷ segs) = refl
is_busid-spell [] (a ∷ b ∷ y) segs = refl
is_busid-spell (a ∷ []) [] [] = refl
is_busid-spell (a ∷ []) [] (z ∷ segs) = ground arith
is_busid-spell (a ∷ []) (b ∷ y) segs = ground arith
is_busid-spell (a ∷ b ∷ []) y segs = ground arith
is_busid-spell (a ∷ b ∷ c ∷ x) y segs = ground (arith, all_digits_or_dots-spell x y segs)
