-- ===== src/Config/Sources.antt =====
-- Where the values of a configuration come from.
use usbip_ice.Base.{
  Name, ◌≡◌, refl, Bool, true, false, ◌&&◌, Option, none, some, List, [], ◌∷◌, if◌then◌else◌, arith,
  Option-cases, inl, inr,
}
use usbip_ice.Base.Dict.{Dict, lookup}
use usbip_ice.Config.Text
use usbip_ice.Config.{
  truthy, Parser, from_file, config_else_env, Config, or_else, read_file, config, address, ◌>>=◌,
}

-- The first value that is there and not empty.
abbrev pub first_set : List (Option Name) → Option Name
first_set [] = none
first_set (o ∷ l) = elim (truthy o) [ some s ↦ some s | none ↦ first_set l ]

-- An option of a section of the file.
abbrev pub in_file : Option Parser → Name → Name → Option Name
in_file none section option = none
in_file (some parser) section option = elim (lookup section parser) [
  | none ↦ none
  | some options ↦ lookup option options
]

abbrev pub is_set : Option Name → Bool
is_set none = false
is_set (some s) = true

abbrev pub or_empty : Option Name → Name
or_empty none = 0
or_empty (some s) = s

truthy_twice : (o : Option Name) → truthy (truthy o) ≡ truthy o
truthy_twice none = refl
truthy_twice (some s) = ground arith

option_of-truthy :
    (option : Name) (o : Option (Dict Name))
    → (elim o as (λ _. Option Name) [ none ↦ none | some options ↦ truthy (lookup option options) ])
      ≡ truthy (elim o as (λ _. Option Name) [ none ↦ none | some options ↦ lookup option options ])
option_of-truthy option none = refl
option_of-truthy option (some options) = refl

from_file-in_file :
    (option section : Name) (parser : Option Parser)
    → from_file option section parser ≡ truthy (in_file parser section option)
unfolding from_file
from_file-in_file option section none = refl
from_file-in_file option section (some parser) = option_of-truthy option (lookup section parser)

module _ (option section : Name) (parser : Option Parser) (environ : Dict Name) where
  required_lem :
      (default : Option Name)
      → config_else_env option section parser environ true default
        ≡ (elim (first_set (in_file parser section option ∷ lookup option environ ∷ default ∷ [])) [
          | none ↦ none
          | some s ↦ some (some s)
        ])
  unfolding config_else_env
  required_lem default =
      ground (
        arith,
        from_file-in_file option section parser,
        truthy_twice (in_file parser section option),
      )

  -- The value of an option that may be missing.
  optional : Option Name
  optional = elim (truthy (in_file parser section option)) [
    | some s ↦ some s
    | none ↦ lookup option environ
  ]

  optional_lem : config_else_env option section parser environ false none ≡ some optional
  unfolding config_else_env optional
  optional_lem = ground (arith, from_file-in_file option section parser)

  optional-or_else :
      (other : Option Name)
      → or_else optional other
        ≡ first_set (in_file parser section option ∷ lookup option environ ∷ other ∷ [])
  unfolding optional
  optional-or_else other = ground (arith, truthy_twice (in_file parser section option))

-- A configuration with the values, if those that it needs are set and its address does not raise.
abbrev pub if_set : (w s v c l d p : Option Name) (ip : Option (Option Name)) → Option Config
if_set w s v c l d p ip =
    if is_set w && (is_set c && (is_set l && (is_set d && is_set p)))
    then (elim ip [
      | none ↦ none
      | some virtual_ip ↦ some (record {
        worker_name = or_empty w;
        server_port = s;
        virtual_server_port = v;
        control_server_url = c;
        virtual_ip = virtual_ip;
        libpg_string = or_empty l;
        default_firmware_path = d;
        pulse_firmware_path = p;
      })
    ])
    else none

-- The value in the file, or else in the environment, or else the other one.
abbrev pub first : Option Parser → Dict Name → Name → Name → Option Name → Option Name
first parser environ section option other =
    first_set (in_file parser section option ∷ lookup option environ ∷ other ∷ [])

abbrev pub chosen : Dict Name → Option (Option Name) → Option Parser → Option Config
chosen environ ip parser =
    if_set (first parser environ Text.connection Text.worker_name (lookup Text.hostname environ))
      (first parser environ Text.connection Text.server_port (some Text.port_8081))
      (first parser environ Text.connection Text.virtual_port (some Text.port_8081))
      (first parser environ Text.connection Text.control_server none)
      (truthy (lookup Text.database environ)) (first parser environ Text.firmware Text.default none)
      (first parser environ Text.firmware Text.pulse_count none)
      (address ip (first parser environ Text.connection Text.virtual_ip none))

port-is_set : (a b : Option Name) → is_set (first_set (a ∷ b ∷ some Text.port_8081 ∷ [])) ≡ true
port-is_set a b = ground arith

truthy-or_else : (o : Option Name) → truthy o ≡ or_else o none
truthy-or_else o = ground arith

abbrev lift : Option Name → Option (Option Name)
lift none = none
lift (some s) = some (some s)

-- The chain of values, each of which may be missing.
collected : (w s v c l d p : Option Name) (ip : Option (Option Name)) → Option Config
collected w s v c l d p ip = do
  worker_name ← w
  server_port ← lift s
  virtual_server_port ← lift v
  control_server_url ← lift c
  virtual_ip ← ip
  libpg_string ← l
  default_firmware_path ← lift d
  pulse_firmware_path ← lift p
  some (record {
    worker_name = worker_name;
    server_port = server_port;
    virtual_server_port = virtual_server_port;
    control_server_url = control_server_url;
    virtual_ip = virtual_ip;
    libpg_string = libpg_string;
    default_firmware_path = default_firmware_path;
    pulse_firmware_path = pulse_firmware_path;
  })

assemble :
    (w s v c l d p : Option Name) (ip : Option (Option Name))
    → is_set s ≡ true
    → is_set v ≡ true
    → collected w s v c l d p ip ≡ if_set w s v c l d p ip
unfolding collected
assemble none s v c l d p ip hs hv = refl
assemble (some w) none v c l d p ip hs hv = ground (arith, hs)
assemble (some w) (some s) none c l d p ip hs hv = ground (arith, hv)
assemble (some w) (some s) (some v) none l d p ip hs hv = refl
assemble (some w) (some s) (some v) (some c) l d p none hs hv = ground arith
assemble (some w) (some s) (some v) (some c) none d p (some a) hs hv = refl
assemble (some w) (some s) (some v) (some c) (some l) none p (some a) hs hv = refl
assemble (some w) (some s) (some v) (some c) (some l) (some d) none (some a) hs hv = refl
assemble (some w) (some s) (some v) (some c) (some l) (some d) (some p) (some a) hs hv = refl

-- `Config(path)` raises exactly if a path is given whose file does not exist, or if none of its
-- sources sets one of: the worker's name (the file, the environment, HOSTNAME), the control server
-- (the file, the environment), the database (the environment), and the two paths of firmware (the
-- file, the environment), or if neither the file nor the environment sets a virtual address and
-- `get_ip` raises. Otherwise each value is the first that is set, the file before the environment;
-- the two ports end with 8081, and the virtual address with what `get_ip` returns.
pub config-chooses :
    (files : Name → Option Parser) (environ : Dict Name) (ip : Option (Option Name))
    (path : Option Name)
    → config files environ ip path
      ≡ (elim (read_file files path) [ none ↦ none | some parser ↦ chosen environ ip parser ])
unfolding config collected
config-chooses files environ ip path = elim (Option-cases (read_file files path)) [
  | inl e ↦ rw e refl
  | inr (parser, e) ↦ rw e (
      rw
        (
          optional_lem Text.worker_name Text.connection parser environ,
          optional-or_else Text.worker_name Text.connection parser environ
              (lookup Text.hostname environ),
          required_lem Text.server_port Text.connection parser environ (some Text.port_8081),
          required_lem Text.virtual_port Text.connection parser environ (some Text.port_8081),
          required_lem Text.control_server Text.connection parser environ none,
          optional_lem Text.virtual_ip Text.connection parser environ,
          required_lem Text.default Text.firmware parser environ none,
          required_lem Text.pulse_count Text.firmware parser environ none,
        )
        (rw
          (
            truthy-or_else (optional Text.virtual_ip Text.connection parser environ),
            optional-or_else Text.virtual_ip Text.connection parser environ none,
          )
          (assemble
            (first parser environ Text.connection Text.worker_name (lookup Text.hostname environ))
            (first parser environ Text.connection Text.server_port (some Text.port_8081))
            (first parser environ Text.connection Text.virtual_port (some Text.port_8081))
            (first parser environ Text.connection Text.control_server none)
            (truthy (lookup Text.database environ))
            (first parser environ Text.firmware Text.default none)
            (first parser environ Text.firmware Text.pulse_count none)
            (address ip (first parser environ Text.connection Text.virtual_ip none))
            (port-is_set (in_file parser Text.connection Text.server_port)
              (lookup Text.server_port environ))
            (port-is_set (in_file parser Text.connection Text.virtual_port)
              (lookup Text.virtual_port environ)))))
]
