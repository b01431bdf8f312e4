-- ===== src/Files/Ports.antt =====
-- The text of `usbip port`, as `usbip_port` of src/usbipice/utils/usbip.py takes it apart. It is
-- the list of its characters' codes, and `str` of bytes has no line breaks.
pub mod Buses
pub mod Printed
use usbip_ice.Base.{
  ℕ, zero, suc, Name, Bool, true, false, ◌||◌, Option, none, some, List, [], ◌∷◌, ◌++◌, map, ◌==◌,
  if◌then◌else◌, length,
}
use usbip_ice.Base.Dict.{Dict}
use usbip_ice.Files
use usbip_ice.Files.Busid.{is_digit, strip, ◌>>=◌, re_search}

-- `[0-9]+`: the digits and what follows them, without the digits of a number that goes on
abbrev pub digits : List ℕ → List ℕ × List ℕ
digits [] = ([], [])
digits (c ∷ s) = let (ds, rest) = digits s in if is_digit c then (c ∷ ds, rest) else ([], c ∷ s)

-- `(?:[0-9]|\.)+`
abbrev pub digits_or_dots : List ℕ → List ℕ × List ℕ
digits_or_dots [] = ([], [])
digits_or_dots (c ∷ s) =
    let (ds, rest) = digits_or_dots s in
    if is_digit c || c == b'.' then (c ∷ ds, rest) else ([], c ∷ s)

-- One or more of them
abbrev pub non_empty : List ℕ × List ℕ → Option (List ℕ × List ℕ)
non_empty ([], rest) = none
non_empty (d ∷ ds, rest) = some (d ∷ ds, rest)

-- `-(?:[0-9]|\.)+`, behind a number
abbrev pub bus_behind : List ℕ × List ℕ → Option (List ℕ × List ℕ)
bus_behind (number, s) = do
  rest ← strip b'-' s
  ports ← non_empty (digits_or_dots rest)
  some (number ++ b'-' ∷ ports.0, ports.1)

-- `[0-9]+-(?:[0-9]|\.)+` at the start of the text: what it matches, and what follows
pub match_bus : List ℕ → Option (List ℕ × List ℕ)
match_bus s = do number ← non_empty (digits s); bus_behind number

-- The same behind `.*?`, which takes as little as it can
abbrev pub skip_one : ℕ → Option (List ℕ × List ℕ) → Option (List ℕ × List ℕ)
skip_one c none = none
skip_one c (some (matched, rest)) = some (c ∷ matched, rest)

abbrev pub here_or : Option (List ℕ × List ℕ) → Option (List ℕ × List ℕ) → Option (List ℕ × List ℕ)
here_or none later = later
here_or (some found) later = some found

pub skip_to_bus : List ℕ → Option (List ℕ × List ℕ)
unfolding match_bus
skip_to_bus [] = none
skip_to_bus (c ∷ s) = let later = skip_one c (skip_to_bus s) in here_or (match_bus (c ∷ s)) later

-- `usbip://` at the start of the text: what follows it
unfoldable pub after_scheme : List ℕ → Option (List ℕ)
after_scheme s = do
  sbip ← strip b'u' s
  bip ← strip b's' sbip
  ip ← strip b'b' bip
  p ← strip b'i' ip
  colon ← strip b'p' p
  slashes ← strip b':' colon
  slash ← strip b'/' slashes
  strip b'/' slash

abbrev pub scheme : List ℕ
scheme = b'u' ∷ b's' ∷ b'b' ∷ b'i' ∷ b'p' ∷ b':' ∷ b'/' ∷ b'/' ∷ []

abbrev pub with_scheme : Option (List ℕ × List ℕ) → Option (List ℕ × List ℕ)
with_scheme none = none
with_scheme (some (matched, rest)) = some (scheme ++ matched, rest)

-- `usbip://.*?[0-9]+-(?:[0-9]|\.)+` at the start of the text
pub match_connection : List ℕ → Option (List ℕ × List ℕ)
unfolding after_scheme skip_to_bus
match_connection s = do behind ← after_scheme s; with_scheme (skip_to_bus behind)

-- `re.findall`: the matches from left to right, each behind the one before. Each turn takes a
-- character at least, so that as many turns as there are characters are enough.
pub find_all : ℕ → List ℕ → List (List ℕ)
unfolding match_connection
find_all zero s = []
find_all (suc fuel) [] = []
find_all (suc fuel) (c ∷ s) = elim (match_connection (c ∷ s)) [
  | none ↦ find_all fuel s
  | some (matched, rest) ↦ matched ∷ find_all fuel rest
]

-- `(.*?):`
abbrev pub until_colon : List ℕ → Option (List ℕ)
until_colon [] = none
until_colon (c ∷ s) =
    let rest = until_colon s in
    if c == b':' then some [] else elim rest [ none ↦ none | some ip ↦ some (c ∷ ip) ]

-- `usbip://(.*?):` at the start of the text: what the group captures
pub match_ip : List ℕ → Option (List ℕ)
unfolding after_scheme
match_ip s = do behind ← after_scheme s; until_colon behind

-- `:[0-9]+/(.*)` at the start of the text
pub match_remote : List ℕ → Option (List ℕ)
match_remote s = do behind ← strip b':' s; port ← non_empty (digits behind); strip b'/' port.1

-- The address and the bus of a connection
pub parse_connection : List ℕ → Option (List ℕ) × Option (List ℕ)
unfolding re_search match_ip match_remote
parse_connection c = (re_search match_ip c, re_search match_remote c)

pub connections : List ℕ → List (Option (List ℕ) × Option (List ℕ))
unfolding find_all parse_connection
connections output = map parse_connection (find_all (length output) output)

module _ (name : List ℕ → Name) where
  abbrev pub named : Option (List ℕ) → Option Name
  named none = none
  named (some s) = some (name s)

  -- `usbip_port` once the command has succeeded, given how texts are named
  unfoldable pub usbip_port : List ℕ → Option (Dict (List Name))
  unfolding connections
  usbip_port output = Files.usbip_port (map (λ c. (named c.0, named c.1)) (connections output))
