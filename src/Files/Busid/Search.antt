-- ===== src/Files/Busid/Search.antt =====
-- What `get_busid` finds in a path, by its segments.
use usbip_ice.Base.{
  ℕ, ◌≡◌, refl, ap, ◌∙◌, append-nil, true, false, Option, none, some, List, [], ◌∷◌, ◌++◌, arith,
  ◌==◌, if◌then◌else◌, Bool-cases, inl, inr,
}
use usbip_ice.Files.Busid.{
  after_usb, after_slash, until_separator, match_user, is_busid, match_kernel, re_search, get_busid,
}
use usbip_ice.Files.Busid.Segments.{
  lacks, are_segments, spell, is_usb, until_colon, busid_of, following, after_usb_inside,
  after_usb-spell, after_slash-spell, until_separator-spell, is_busid-spell,
}

-- The expressions behind the controller
abbrev user_rest : Option (List ℕ) → Option (List ℕ)
user_rest after = elim after [
  | none ↦ none
  | some rest ↦ elim (after_slash rest) [ none ↦ none | some file ↦ some (until_separator file) ]
]

abbrev kernel_rest : Option (List ℕ) → Option (List ℕ)
kernel_rest after = elim after [
  | none ↦ none
  | some rest ↦ if is_busid rest then some rest else none
]

module _ (expression : List ℕ → Option (List ℕ)) where
  -- An expression that starts with a slash is not found inside a segment.
  re_search-segment :
      ((c : ℕ) (s : List ℕ) → (c == b'/') ≡ false → expression (c ∷ s) ≡ none)
      → (seg t : List ℕ) → lacks b'/' seg ≡ true
      → re_search expression (seg ++ t) ≡ re_search expression t
  unfolding re_search
  re_search-segment inside [] t l = refl
  re_search-segment inside (c ∷ seg) t l =
      rw (inside c (seg ++ t) (ground arith)) (re_search-segment inside seg t (ground arith))

match_user_inside : (c : ℕ) (s : List ℕ) → (c == b'/') ≡ false → match_user (c ∷ s) ≡ none
match_user_inside c s h = ap user_rest (after_usb_inside c s h)

match_kernel_inside : (c : ℕ) (s : List ℕ) → (c == b'/') ≡ false → match_kernel (c ∷ s) ≡ none
match_kernel_inside c s h = ap kernel_rest (after_usb_inside c s h)

-- What the two expressions find at a segment
abbrev user_named : List (List ℕ) → Option (List ℕ)
user_named (x ∷ y ∷ segs) = some (until_colon y)
user_named _ = none

abbrev kernel_named : List (List ℕ) → Option (List ℕ)
kernel_named (x ∷ []) = if is_busid x then some x else none
kernel_named _ = none

match_user-spell :
    (seg : List ℕ) (segs : List (List ℕ))
    → are_segments (seg ∷ segs) ≡ true
    → match_user (spell (seg ∷ segs)) ≡ (if is_usb seg then user_named segs else none)
match_user-spell seg segs l =
    ap user_rest (after_usb-spell seg segs (ground arith)) ∙ elim (Bool-cases (is_usb seg)) [
      | inl e ↦ rw e (behind segs (ground arith))
      | inr e ↦ rw e refl
    ]
  where
    behind :
        (segs : List (List ℕ))
        → are_segments segs ≡ true
        → user_rest (following segs) ≡ user_named segs
    behind [] l = refl
    behind (x ∷ []) l = ground (arith, after_slash-spell x [])
    behind (x ∷ y ∷ segs) l =
        ground (arith, after_slash-spell x (y ∷ segs), until_separator-spell y segs)

match_kernel-spell :
    (seg : List ℕ) (segs : List (List ℕ))
    → are_segments (seg ∷ segs) ≡ true
    → match_kernel (spell (seg ∷ segs)) ≡ (if is_usb seg then kernel_named segs else none)
match_kernel-spell seg segs l =
    ap kernel_rest (after_usb-spell seg segs (ground arith))
    ∙ elim (Bool-cases (is_usb seg)) [ inl e ↦ rw e (behind segs) | inr e ↦ rw e refl ]
  where
    behind : (segs : List (List ℕ)) → kernel_rest (following segs) ≡ kernel_named segs
    behind [] = refl
    behind (x ∷ []) = rw (append-nil x) refl
    behind (x ∷ y ∷ segs) = ground (arith, is_busid-spell x y segs)

-- The search at a segment, and then behind it
re_search-spell :
    (expression : List ℕ → Option (List ℕ)) (seg : List ℕ) (segs : List (List ℕ))
    → ((c : ℕ) (s : List ℕ) → (c == b'/') ≡ false → expression (c ∷ s) ≡ none)
    → lacks b'/' seg ≡ true
    → re_search expression (spell (seg ∷ segs)) ≡ (elim (expression (spell (seg ∷ segs))) [
      | some group ↦ some group
      | none ↦ re_search expression (spell segs)
    ])
unfolding re_search
re_search-spell expression seg segs inside l =
    ap
      (λ (r : Option (List ℕ)). elim (expression (spell (seg ∷ segs))) as (λ x. Option (List ℕ)) [
        | some group ↦ some group
        | none ↦ r
      ])
      (re_search-segment expression inside seg (spell segs) l)

abbrev or_else : Option (List ℕ) → Option (List ℕ) → Option (List ℕ)
or_else user kernel = elim user [ some busid ↦ some busid | none ↦ kernel ]

get_busid_lem :
    (s : List ℕ) → get_busid s ≡ or_else (re_search match_user s) (re_search match_kernel s)
unfolding get_busid
get_busid_lem s = refl

ends : or_else (re_search match_user []) (re_search match_kernel []) ≡ none
unfolding re_search after_usb
ends = refl

re_searches-spell :
    (segs : List (List ℕ))
    → are_segments segs ≡ true
    → or_else (re_search match_user (spell segs)) (re_search match_kernel (spell segs))
      ≡ busid_of segs
re_searches-spell [] l = ends
re_searches-spell (seg ∷ segs) l = ground (
  arith,
  re_search-spell match_user seg segs match_user_inside,
  re_search-spell match_kernel seg segs match_kernel_inside,
  match_user-spell seg segs,
  match_kernel-spell seg segs,
  re_searches-spell segs,
)

-- The bus of a path is found by its segments: in a path whose segments have no slashes,
-- `get_busid` looks for the first segment that is `usb` with a digit. With two more segments
-- behind it, the bus is the second of these, as far as its first colon; with a single one, it is
-- that if it is a digit, a dash, and some digits or dots, and otherwise there is none. There is
-- none either if no segment follows, or there is no such segment.
pub get_busid-spell :
    (segs : List (List ℕ)) → are_segments segs ≡ true → get_busid (spell segs) ≡ busid_of segs
get_busid-spell segs l = get_busid_lem (spell segs) ∙ re_searches-spell segs l
