-- ===== src/Files/Ports/Printed.antt =====
-- A printed list of connections, and what is read from it.
pub mod Reading
use usbip_ice.Base.{
  ℕ, ◌≡◌, refl, ap, ◌∙◌, Bool, true, false, not, ◌&&◌, Option, none, some, List, [], ◌∷◌, ◌++◌,
  arith, append_assoc, ◌==◌, if◌then◌else◌,
}
use usbip_ice.Files.Busid.{strip, ◌>>=◌, re_search}
use usbip_ice.Files.Busid.Segments.{lacks}
use usbip_ice.Files.Ports.{
  after_scheme, scheme, skip_to_bus, match_connection, with_scheme, until_colon, match_ip,
  match_remote, parse_connection, non_empty, digits,
}
use usbip_ice.Files.Ports.Buses.{
  are_digits, is_number, is_port_chain, ends_ports, ends_digits, non_empty-number,
  skip_to_bus-append,
}

-- A connection, with the text that is printed before it
pub record Connection : Type 0 where
  pub before : List ℕ
  pub ip : List ℕ
  pub port : List ℕ
  pub number : List ℕ
  pub ports : List ℕ

abbrev pub bus : Connection → List ℕ
bus c = c.number ++ b'-' ∷ c.ports

-- `ip:port/bus`
abbrev pub location : Connection → List ℕ
location c = c.ip ++ b':' ∷ (c.port ++ b'/' ∷ bus c)

abbrev pub is_none : Option (List ℕ) → Bool
is_none none = true
is_none (some s) = false

-- The text nowhere has `usbip://`.
abbrev pub lacks_scheme : List ℕ → Bool
lacks_scheme [] = true
lacks_scheme (c ∷ s) = is_none (after_scheme (c ∷ s)) && lacks_scheme s

-- The text before has no connection, and does not go on with the bus before it. The address has
-- neither colons nor dashes.
pub record IsPrinted (c : Connection) : Type 0 where
  pub no_scheme : lacks_scheme c.before ≡ true
  pub ends_bus : ends_ports c.before ≡ true
  pub no_colon : lacks b':' c.ip ≡ true
  pub no_dash : lacks b'-' c.ip ≡ true
  pub port_number : is_number c.port ≡ true
  pub bus_number : is_number c.number ≡ true
  pub bus_ports : is_port_chain c.ports ≡ true

abbrev pub ArePrinted : List Connection → Type 0
ArePrinted [] = Unit {0}
ArePrinted (c ∷ l) = IsPrinted c × ArePrinted l

-- The connections and the text behind them
abbrev pub spell : List Connection → List ℕ → List ℕ
spell [] tail = tail
spell (c ∷ l) tail = c.before ++ (scheme ++ (location c ++ spell l tail))

-- In front of `usbip://`, no other one starts in a text without it.
pub after_scheme-append :
    (c : ℕ) (s t : List ℕ)
    → after_scheme (c ∷ s) ≡ none
    → after_scheme ((c ∷ s) ++ (scheme ++ t)) ≡ none
unfolding after_scheme
after_scheme-append a [] t h = ground arith
after_scheme-append a (b ∷ []) t h = ground arith
after_scheme-append a (b ∷ c ∷ []) t h = ground arith
after_scheme-append a (b ∷ c ∷ d ∷ []) t h = ground arith
after_scheme-append a (b ∷ c ∷ d ∷ e ∷ []) t h = ground arith
after_scheme-append a (b ∷ c ∷ d ∷ e ∷ f ∷ []) t h = ground arith
after_scheme-append a (b ∷ c ∷ d ∷ e ∷ f ∷ g ∷ []) t h = ground arith
after_scheme-append a (b ∷ c ∷ d ∷ e ∷ f ∷ g ∷ i ∷ s) t h = ground arith

lacks-append : (a : ℕ) (s t : List ℕ) → lacks a (s ++ t) ≡ (lacks a s && lacks a t)
lacks-append a [] t = refl
lacks-append a (c ∷ s) t = ground (arith, lacks-append a s t)

lacks_dash-digits : (s : List ℕ) → are_digits s ≡ true → lacks b'-' s ≡ true
lacks_dash-digits [] h = refl
lacks_dash-digits (c ∷ s) h = ground (arith, lacks_dash-digits s)

lacks_dash-number : (s : List ℕ) → is_number s ≡ true → lacks b'-' s ≡ true
lacks_dash-number [] h = cc
lacks_dash-number (c ∷ s) h = lacks_dash-digits (c ∷ s) h

until_colon-ip : (ip t : List ℕ) → lacks b':' ip ≡ true → until_colon (ip ++ b':' ∷ t) ≡ some ip
until_colon-ip [] t l = refl
until_colon-ip (d ∷ ip) t l = ground (arith, until_colon-ip ip t)

match_connection-scheme :
    (t : List ℕ) → match_connection (scheme ++ t) ≡ with_scheme (skip_to_bus t)
unfolding match_connection
match_connection-scheme t = refl

match_ip-scheme : (t : List ℕ) → match_ip (scheme ++ t) ≡ until_colon t
unfolding match_ip
match_ip-scheme t = refl

match_remote_inside : (d : ℕ) (s : List ℕ) → (d == b':') ≡ false → match_remote (d ∷ s) ≡ none
unfolding match_remote
match_remote_inside d s h = rw h refl

module _ (expression : List ℕ → Option (List ℕ)) (c : ℕ) (s : List ℕ) where
  re_search-here :
      (group : List ℕ) → expression (c ∷ s) ≡ some group → re_search expression (c ∷ s) ≡ some group
  unfolding re_search
  re_search-here group h = ground (arith, h)

  re_search-next : expression (c ∷ s) ≡ none → re_search expression (c ∷ s) ≡ re_search expression s
  unfolding re_search
  re_search-next h = ground (arith, h)

parse_connection_lem :
    (s : List ℕ) → parse_connection s ≡ (re_search match_ip s, re_search match_remote s)
unfolding parse_connection
parse_connection_lem s = refl

re_search-scheme : (t : List ℕ) → re_search match_remote (scheme ++ t) ≡ re_search match_remote t
unfolding re_search match_remote
re_search-scheme t = refl

module _ (c : Connection) (printed : IsPrinted c) where
  -- The address and the port have no dash.
  ahead : List ℕ
  ahead = c.ip ++ b':' ∷ c.port

  ahead-lacks : lacks b'-' ahead ≡ true
  unfolding ahead
  ahead-lacks = ground (
    arith,
    lacks-append b'-' c.ip (b':' ∷ c.port),
    lacks_dash-number c.port printed.port_number,
    printed.no_dash,
  )

  regrouped :
      (rest : List ℕ) → ahead ++ b'/' ∷ (c.number ++ b'-' ∷ (c.ports ++ rest)) ≡ location c ++ rest
  unfolding ahead
  regrouped rest = simp append_assoc

  regrouped_bus : ahead ++ b'/' ∷ bus c ≡ location c
  unfolding ahead
  regrouped_bus = simp append_assoc

  skip_to_bus-location :
      (rest : List ℕ)
      → ends_ports rest ≡ true
      → skip_to_bus (location c ++ rest) ≡ some (location c, rest)
  skip_to_bus-location rest e = rw (← regrouped rest) (
      skip_to_bus-append ahead c.number c.ports rest ahead-lacks printed.bus_number
        printed.bus_ports e
      ∙ ap (λ l. some (l, rest)) regrouped_bus)

  pub match_connection-location :
      (rest : List ℕ)
      → ends_ports rest ≡ true
      → match_connection (scheme ++ (location c ++ rest)) ≡ some (scheme ++ location c, rest)
  match_connection-location rest e =
      match_connection-scheme (location c ++ rest) ∙ ap with_scheme (skip_to_bus-location rest e)

  match_ip-location : match_ip (scheme ++ location c) ≡ some c.ip
  match_ip-location =
      match_ip-scheme (location c) ∙ until_colon-ip c.ip (c.port ++ b'/' ∷ bus c) printed.no_colon

  match_remote-port : (x : List ℕ) → match_remote (b':' ∷ (c.port ++ b'/' ∷ x)) ≡ some x
  unfolding match_remote
  match_remote-port x = rw (non_empty-number c.port (b'/' ∷ x) printed.port_number refl) refl

  re_search-location : re_search match_remote (location c) ≡ some (bus c)
  re_search-location = in_address c.ip printed.no_colon
    where
      in_address :
          (ip : List ℕ)
          → lacks b':' ip ≡ true
          → re_search match_remote (ip ++ b':' ∷ (c.port ++ b'/' ∷ bus c)) ≡ some (bus c)
      in_address [] l =
          re_search-here match_remote b':' (c.port ++ b'/' ∷ bus c) (bus c)
            (match_remote-port (bus c))
      in_address (d ∷ ip) l =
          re_search-next match_remote d _ (match_remote_inside d _ (ground arith))
          ∙ in_address ip (ground arith)

  pub parse_connection-location :
      parse_connection (scheme ++ location c) ≡ (some c.ip, some (bus c))
  parse_connection-location =
      parse_connection_lem (scheme ++ location c)
      ∙ ap (λ ip. (ip, re_search match_remote (scheme ++ location c)))
          (re_search-here match_ip b'u' _ c.ip match_ip-location)
      ∙ ap (λ remote. (some c.ip, remote)) (re_search-scheme (location c) ∙ re_search-location)
