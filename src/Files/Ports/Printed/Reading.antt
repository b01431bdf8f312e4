-- ===== src/Files/Ports/Printed/Reading.antt =====
-- All connections of a printed list are read.
use usbip_ice.Base.{
  ℕ, zero, suc, ◌-◌, ◌≤◌, Name, ◌≡◌, refl, ap, ◌∙◌, true, Option, none, some, List, [], ◌∷◌, ◌++◌,
  map, arith, length, length-append,
}
use usbip_ice.Files
use usbip_ice.Files.Busid.{◌>>=◌}
use usbip_ice.Files.Ports.{
  after_scheme, scheme, skip_to_bus, with_scheme, match_connection, find_all, parse_connection,
  connections, named, usbip_port,
}
use usbip_ice.Files.Ports.Buses.{ends_ports}
use usbip_ice.Files.Ports.Printed.{
  Connection, bus, location, is_none, lacks_scheme, IsPrinted, ArePrinted, spell,
  after_scheme-append, match_connection-location, parse_connection-location,
}

no_connection : (s : List ℕ) → after_scheme s ≡ none → match_connection s ≡ none
unfolding match_connection
no_connection s h = ap (λ (o : Option (List ℕ)). o >>= λ behind. with_scheme (skip_to_bus behind)) h

abbrev next_match : ℕ → List ℕ → Option (List ℕ × List ℕ) → List (List ℕ)
next_match fuel s found = elim found [
  | none ↦ find_all fuel s
  | some (matched, rest) ↦ matched ∷ find_all fuel rest
]

find_all_lem :
    (fuel c : ℕ) (s : List ℕ)
    → find_all (suc fuel) (c ∷ s) ≡ next_match fuel s (match_connection (c ∷ s))
unfolding find_all
find_all_lem fuel c s = refl

find_all-next :
    (fuel c : ℕ) (s : List ℕ)
    → after_scheme (c ∷ s) ≡ none
    → find_all (suc fuel) (c ∷ s) ≡ find_all fuel s
find_all-next fuel c s h = find_all_lem fuel c s ∙ ap (next_match fuel s) (no_connection (c ∷ s) h)

is_none→none : (o : Option (List ℕ)) → is_none o ≡ true → o ≡ none
is_none→none none h = refl
is_none→none (some s) h = cc

find_all-zero : (s : List ℕ) → find_all zero s ≡ []
unfolding find_all
find_all-zero s = refl

find_all-nil : (fuel : ℕ) → find_all (suc fuel) [] ≡ []
unfolding find_all
find_all-nil fuel = refl

find_all-tail : (fuel : ℕ) (tail : List ℕ) → lacks_scheme tail ≡ true → find_all fuel tail ≡ []
find_all-tail zero tail h = find_all-zero tail
find_all-tail (suc fuel) [] h = find_all-nil fuel
find_all-tail (suc fuel) (c ∷ s) h =
    find_all-next fuel c s (is_none→none (after_scheme (c ∷ s)) (ground arith))
    ∙ find_all-tail fuel s (ground arith)

-- The text before a connection is passed over.
find_all-before :
    (before t : List ℕ) (fuel : ℕ)
    → lacks_scheme before ≡ true
    → length before ≤ fuel
    → find_all fuel (before ++ (scheme ++ t)) ≡ find_all (fuel - length before) (scheme ++ t)
find_all-before [] t fuel l h = ap (λ n. find_all n (scheme ++ t)) (omega arith)
find_all-before (c ∷ s) t zero l h = absurd (omega (arith, h))
find_all-before (c ∷ s) t (suc fuel) l h =
    find_all-next fuel c (s ++ (scheme ++ t))
      (after_scheme-append c s t (is_none→none (after_scheme (c ∷ s)) (ground arith)))
    ∙ find_all-before s t fuel (ground arith) (omega (arith, h))
    ∙ ap (λ n. find_all n (scheme ++ t)) (omega arith)

ends_ports-spell :
    (l : List Connection) (tail : List ℕ)
    → ArePrinted l
    → ends_ports tail ≡ true
    → ends_ports (spell l tail) ≡ true
ends_ports-spell [] tail p e = e
ends_ports-spell (c ∷ l) tail (p, q) e = in_front c.before p.ends_bus
  where
    in_front :
        (before : List ℕ)
        → ends_ports before ≡ true
        → ends_ports (before ++ (scheme ++ (location c ++ spell l tail))) ≡ true
    in_front [] h = refl
    in_front (d ∷ before) h = h

abbrev text_of : Connection → List ℕ
text_of c = scheme ++ location c

find_all-location :
    (c : Connection) (rest : List ℕ) (fuel : ℕ)
    → IsPrinted c
    → ends_ports rest ≡ true
    → find_all (suc fuel) (scheme ++ (location c ++ rest)) ≡ text_of c ∷ find_all fuel rest
find_all-location c rest fuel p e =
    find_all_lem fuel b'u' _ ∙ ap (next_match fuel _) (match_connection-location c p rest e)

find_all-spell :
    (l : List Connection) (tail : List ℕ) (fuel : ℕ)
    → ArePrinted l
    → lacks_scheme tail ≡ true
    → ends_ports tail ≡ true
    → length (spell l tail) ≤ fuel
    → find_all fuel (spell l tail) ≡ map text_of l
find_all-spell [] tail fuel p n e h = find_all-tail fuel tail n
find_all-spell (c ∷ l) tail fuel (p, q) n e h =
    let rest = spell l tail in
    let whole = length-append c.before (scheme ++ (location c ++ rest)) in
    let behind = length-append (location c) rest in
    let left = fuel - length c.before - 1 in
    find_all-before c.before (location c ++ rest) fuel p.no_scheme (omega (arith, h, whole))
    ∙ ap (λ k. find_all k (scheme ++ (location c ++ rest))) (omega (arith, h, whole, behind))
    ∙ find_all-location c rest left p (ends_ports-spell l tail q e)
    ∙ ap (λ m. text_of c ∷ m) (find_all-spell l tail left q n e (omega (arith, h, whole, behind)))

parsed :
    (l : List Connection)
    → ArePrinted l
    → map parse_connection (map text_of l) ≡ map (λ c. (some c.ip, some (bus c))) l
parsed [] p = refl
parsed (c ∷ l) (p, q) = cc (parse_connection-location c p, parsed l q)

abbrev pub addresses : (List ℕ → Name) → List Connection → List (Option Name × Option Name)
addresses name l = map (λ c. (some (name c.ip), some (name (bus c)))) l

connections_lem : (s : List ℕ) → connections s ≡ map parse_connection (find_all (length s) s)
unfolding connections
connections_lem s = refl

connections-read :
    (l : List Connection) (tail : List ℕ)
    → ArePrinted l
    → lacks_scheme tail ≡ true
    → ends_ports tail ≡ true
    → connections (spell l tail) ≡ map (λ c. (some c.ip, some (bus c))) l
connections-read l tail p n e =
    connections_lem (spell l tail)
    ∙ ap (map parse_connection) (find_all-spell l tail (length (spell l tail)) p n e (omega arith))
    ∙ parsed l p

abbrev both_named : (List ℕ → Name) → Option (List ℕ) × Option (List ℕ) → Option Name × Option Name
both_named name c = (named name c.0, named name c.1)

usbip_port_lem :
    (name : List ℕ → Name) (s : List ℕ)
    → usbip_port name s ≡ Files.usbip_port (map (both_named name) (connections s))
unfolding usbip_port
usbip_port_lem name s = refl

renamed :
    (name : List ℕ → Name) (l : List Connection)
    → map (both_named name) (map (λ c. (some c.ip, some (bus c))) l) ≡ addresses name l
renamed name [] = refl
renamed name (c ∷ l) = ap (λ m. (some (name c.ip), some (name (bus c))) ∷ m) (renamed name l)

-- What `usbip port` prints is read back. Let there be connections, each behind a text without
-- `usbip://` that does not go on with the bus before it, and at the end such a text. Let the
-- addresses have neither colons nor dashes, the ports be numbers, and the buses numbers with a dash
-- and some digits or dots. Then the addresses and buses are read, each connection once and in
-- order, and `usbip_port` groups these.
pub connections-spell :
    (name : List ℕ → Name) (l : List Connection) (tail : List ℕ)
    → ArePrinted l
    → lacks_scheme tail ≡ true
    → ends_ports tail ≡ true
    → (connections (spell l tail) ≡ map (λ c. (some c.ip, some (bus c))) l)
      × (usbip_port name (spell l tail) ≡ Files.usbip_port (addresses name l))
connections-spell name l tail p n e =
    let read = connections-read l tail p n e in
    (
      read,
      usbip_port_lem name (spell l tail)
          ∙ ap Files.usbip_port (ap (map (both_named name)) read ∙ renamed name l),
    )
