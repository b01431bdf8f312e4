-- ===== src/Files/Ports/Buses.antt =====
-- Digits and buses in a text.
use usbip_ice.Base.{
  ℕ, ◌≡◌, refl, ap, ◌∙◌, Bool, true, false, not, ◌&&◌, ◌||◌, none, some, List, [], ◌∷◌, ◌++◌, arith,
  ◌==◌,
}
use usbip_ice.Files.Busid.{is_digit, strip, ◌>>=◌}
use usbip_ice.Files.Busid.Segments.{lacks}
use usbip_ice.Files.Ports.{
  digits, digits_or_dots, non_empty, bus_behind, match_bus, skip_to_bus, skip_one, here_or,
}

-- A number, of one digit or more
abbrev pub are_digits : List ℕ → Bool
are_digits [] = true
are_digits (c ∷ s) = is_digit c && are_digits s

abbrev pub is_number : List ℕ → Bool
is_number [] = false
is_number (c ∷ s) = is_digit c && are_digits s

abbrev pub are_ports : List ℕ → Bool
are_ports [] = true
are_ports (c ∷ s) = (is_digit c || c == b'.') && are_ports s

abbrev pub is_port_chain : List ℕ → Bool
is_port_chain [] = false
is_port_chain (c ∷ s) = (is_digit c || c == b'.') && are_ports s

-- The text does not go on with a digit or a dot.
abbrev pub ends_ports : List ℕ → Bool
ends_ports [] = true
ends_ports (c ∷ s) = not (is_digit c || c == b'.')

abbrev pub ends_digits : List ℕ → Bool
ends_digits [] = true
ends_digits (c ∷ s) = not (is_digit c)

pub digits-append :
    (ds rest : List ℕ)
    → are_digits ds ≡ true
    → ends_digits rest ≡ true
    → digits (ds ++ rest) ≡ (ds, rest)
digits-append [] [] h e = refl
digits-append [] (c ∷ rest) h e = ground arith
digits-append (d ∷ ds) rest h e = ground (arith, digits-append ds rest)

digits_or_dots-append :
    (ds rest : List ℕ)
    → are_ports ds ≡ true
    → ends_ports rest ≡ true
    → digits_or_dots (ds ++ rest) ≡ (ds, rest)
digits_or_dots-append [] [] h e = refl
digits_or_dots-append [] (c ∷ rest) h e = ground arith
digits_or_dots-append (d ∷ ds) rest h e = ground (arith, digits_or_dots-append ds rest)

pub non_empty-number :
    (ds rest : List ℕ)
    → is_number ds ≡ true
    → ends_digits rest ≡ true
    → non_empty (digits (ds ++ rest)) ≡ some (ds, rest)
non_empty-number [] rest h e = cc
non_empty-number (d ∷ ds) rest h e = ap non_empty (digits-append (d ∷ ds) rest h e)

non_empty-ports :
    (ds rest : List ℕ)
    → is_port_chain ds ≡ true
    → ends_ports rest ≡ true
    → non_empty (digits_or_dots (ds ++ rest)) ≡ some (ds, rest)
non_empty-ports [] rest h e = cc
non_empty-ports (d ∷ ds) rest h e = ap non_empty (digits_or_dots-append (d ∷ ds) rest h e)

match_bus-append :
    (number ports rest : List ℕ)
    → is_number number ≡ true
    → is_port_chain ports ≡ true
    → ends_ports rest ≡ true
    → match_bus (number ++ b'-' ∷ (ports ++ rest)) ≡ some (number ++ b'-' ∷ ports, rest)
unfolding match_bus
match_bus-append number ports rest n p e =
    rw (non_empty-number number (b'-' ∷ (ports ++ rest)) n refl)
      (rw (non_empty-ports ports rest p e) refl)

-- Before a slash, no bus starts in a text without dashes.
strip_dash-digits :
    (x t : List ℕ) → lacks b'-' x ≡ true → strip b'-' (digits (x ++ b'/' ∷ t)).1 ≡ none
strip_dash-digits [] t l = refl
strip_dash-digits (c ∷ x) t l = ground (arith, strip_dash-digits x t)

not_bus_behind : (n : List ℕ × List ℕ) → strip b'-' n.1 ≡ none → (non_empty n >>= bus_behind) ≡ none
not_bus_behind ([], rest) h = refl
not_bus_behind (d ∷ ds, rest) h = rw h refl

match_bus-none : (x t : List ℕ) → lacks b'-' x ≡ true → match_bus (x ++ b'/' ∷ t) ≡ none
unfolding match_bus
match_bus-none x t l = not_bus_behind (digits (x ++ b'/' ∷ t)) (strip_dash-digits x t l)

skip_to_bus-next :
    (c : ℕ) (s : List ℕ)
    → match_bus (c ∷ s) ≡ none
    → skip_to_bus (c ∷ s) ≡ skip_one c (skip_to_bus s)
unfolding skip_to_bus
skip_to_bus-next c s h = ap (λ o. here_or o (skip_one c (skip_to_bus s))) h

skip_to_bus-here :
    (s : List ℕ) {found : List ℕ × List ℕ} → match_bus s ≡ some found → skip_to_bus s ≡ some found
unfolding skip_to_bus
skip_to_bus-here [] h = cc
skip_to_bus-here (c ∷ s) h = ap (λ o. here_or o (skip_one c (skip_to_bus s))) h

-- A text without dashes before a slash is skipped, and the bus behind it is found.
pub skip_to_bus-append :
    (x number ports rest : List ℕ)
    → lacks b'-' x ≡ true
    → is_number number ≡ true
    → is_port_chain ports ≡ true
    → ends_ports rest ≡ true
    → skip_to_bus (x ++ b'/' ∷ (number ++ b'-' ∷ (ports ++ rest)))
      ≡ some (x ++ b'/' ∷ (number ++ b'-' ∷ ports), rest)
skip_to_bus-append [] number ports rest l n p e =
    skip_to_bus-next b'/' (number ++ b'-' ∷ (ports ++ rest)) (match_bus-none [] _ refl)
    ∙ ap (skip_one b'/') (
        skip_to_bus-here (number ++ b'-' ∷ (ports ++ rest))
          (match_bus-append number ports rest n p e))
skip_to_bus-append (c ∷ x) number ports rest l n p e =
    skip_to_bus-next c (x ++ b'/' ∷ (number ++ b'-' ∷ (ports ++ rest))) (match_bus-none (c ∷ x) _ l)
    ∙ ap (skip_one c) (skip_to_bus-append x number ports rest (ground arith) n p e)
