-- ===== src/Files/Busid.antt =====
-- `get_busid` of src/usbipice/utils/dev.py. A path is the list of its characters' codes, and has no
-- line break.
pub mod Segments
pub mod Search
use usbip_ice.Base.{
  ℕ, Bool, true, false, ◌&&◌, ◌||◌, Option, none, some, List, [], ◌∷◌, leb, ◌==◌, if◌then◌else◌,
}

-- `[0-9]`
abbrev pub is_digit : ℕ → Bool
is_digit c = leb b'0' c && leb c b'9'

-- A character at the start of the text: what follows it
abbrev pub strip : ℕ → List ℕ → Option (List ℕ)
strip a [] = none
strip a (c ∷ s) = if c == a then some s else none

abbrev pub strip_digit : List ℕ → Option (List ℕ)
strip_digit [] = none
strip_digit (c ∷ s) = if is_digit c then some s else none

infixl 5 ◌>>=◌
abbrev pub ◌>>=◌ : {A B : Type 0} → Option A → (A → Option B) → Option B
none >>= f = none
some a >>= f = f a

-- `/usb[0-9]/` at the start of the text: what follows it
pub after_usb : List ℕ → Option (List ℕ)
after_usb s = do
  usb ← strip b'/' s
  sb ← strip b'u' usb
  b ← strip b's' sb
  number ← strip b'b' b
  slash ← strip_digit number
  strip b'/' slash

-- `.*?/`, which takes as little as it can: what follows the first slash
abbrev pub after_slash : List ℕ → Option (List ℕ)
after_slash [] = none
after_slash (c ∷ s) = if c == b'/' then some s else after_slash s

-- `(.*?)([:/]|$)`, which always matches: what the first group captures
abbrev pub until_separator : List ℕ → List ℕ
until_separator [] = []
until_separator (c ∷ s) = if c == b':' || c == b'/' then [] else c ∷ until_separator s

abbrev pub match_user : List ℕ → Option (List ℕ)
match_user s = elim (after_usb s) [
  | none ↦ none
  | some rest ↦ elim (after_slash rest) [ none ↦ none | some file ↦ some (until_separator file) ]
]

-- `(?:[0-9]|\.)+$`
abbrev pub all_digits_or_dots : List ℕ → Bool
all_digits_or_dots [] = true
all_digits_or_dots (c ∷ s) = (is_digit c || c == b'.') && all_digits_or_dots s

-- `[0-9]-(?:[0-9]|\.)+$`
abbrev pub is_busid : List ℕ → Bool
is_busid (a ∷ b ∷ c ∷ s) = is_digit a && (b == b'-' && all_digits_or_dots (c ∷ s))
is_busid _ = false

abbrev pub match_kernel : List ℕ → Option (List ℕ)
match_kernel s = elim (after_usb s) [
  | none ↦ none
  | some rest ↦ if is_busid rest then some rest else none
]

-- `re.search`: the leftmost place where the expression matches
unfoldable pub re_search : (List ℕ → Option (List ℕ)) → List ℕ → Option (List ℕ)
re_search expression [] = expression []
re_search expression (c ∷ s) = elim (expression (c ∷ s)) [
  | some group ↦ some group
  | none ↦ re_search expression s
]

-- `none` is `None`. The captured text may be empty; only `None` is false here.
pub get_busid : List ℕ → Option (List ℕ)
unfolding re_search after_usb
get_busid dev_path = elim (re_search match_user dev_path) [
  | some busid ↦ some busid
  | none ↦ re_search match_kernel dev_path
]
