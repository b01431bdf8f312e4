-- ===== src/Config.antt =====
-- A worker's configuration: `class Config` of src/usbipice/worker/Config.py, with
-- `config_else_env` of src/usbipice/utils/utils.py.
pub mod Text
pub mod Sources
use usbip_ice.Base.{Name, Bool, true, false, Option, none, some, ◌==◌, if◌then◌else◌}
use usbip_ice.Base.Dict.{Dict, lookup}
use usbip_ice.Config.Text

-- A value as a condition: `None` and the empty text are false.
abbrev pub truthy : Option Name → Option Name
truthy none = none
truthy (some s) = if s == 0 then none else some s

-- The sections of a file that was read
abbrev pub Parser : Type 0
Parser = Dict (Dict Name)

-- The value of `parser[section].get(option)` if it is used
pub from_file : Name → Name → Option Parser → Option Name
from_file option section none = none
from_file option section (some parser) = elim (lookup section parser) [
  | none ↦ none
  | some options ↦ truthy (lookup option options)
]

-- What follows once the environment was read
abbrev pub or_default : Bool → Option Name → Option Name → Option (Option Name)
or_default false default value = some value
or_default true default value = elim (truthy value) [
  | some s ↦ some (some s)
  | none ↦ elim (truthy default) [ none ↦ none | some d ↦ some (some d) ]
]

-- `config_else_env`: the outer `none` is an exception, the inner one `None`.
pub config_else_env :
    Name → Name → Option Parser → Dict Name → Bool → Option Name → Option (Option Name)
unfolding from_file
config_else_env option section parser environ error default =
    elim (from_file option section parser) [
      | some value ↦ some (some value)
      | none ↦ or_default error default (lookup option environ)
    ]

pub record Config : Type 0 where
  pub worker_name : Name
  pub server_port : Option Name
  pub virtual_server_port : Option Name
  pub control_server_url : Option Name
  pub virtual_ip : Option Name
  pub libpg_string : Name
  pub default_firmware_path : Option Name
  pub pulse_firmware_path : Option Name

infixl 5 ◌>>=◌
abbrev pub ◌>>=◌ : {A : Type 0} {B : Type 0} → Option A → (A → Option B) → Option B
none >>= f = none
some a >>= f = f a

-- `value` or else `other`
abbrev pub or_else : Option Name → Option Name → Option Name
or_else value other = elim (truthy value) [ some s ↦ some s | none ↦ truthy other ]

-- The path that is given, if it is not empty: `none` where there is no such file.
abbrev pub read_file : (Name → Option Parser) → Option Name → Option (Option Parser)
read_file files path = elim (truthy path) [
  | none ↦ some none
  | some p ↦ elim (files p) [ none ↦ none | some parser ↦ some (some parser) ]
]

-- The address that is set, or else what `get_ip` returns, where `none` is its exception and
-- `some none` its `None`
abbrev pub address : Option (Option Name) → Option Name → Option (Option Name)
address ip none = ip
address ip (some s) = some (some s)

-- `Config(path)`, where `files` has what the existing files hold and `ip` is what a call of
-- `get_ip` does: `none` is an exception.
pub config : (Name → Option Parser) → Dict Name → Option (Option Name) → Option Name → Option Config
unfolding config_else_env
config files environ ip path = do
  parser ← read_file files path
  named ← config_else_env Text.worker_name Text.connection parser environ false none
  worker_name ← or_else named (lookup Text.hostname environ)
  server_port ←
      config_else_env Text.server_port Text.connection parser environ true (some Text.port_8081)
  virtual_server_port ←
      config_else_env Text.virtual_port Text.connection parser environ true (some Text.port_8081)
  control_server_url ← config_else_env Text.control_server Text.connection parser environ true none
  set_ip ← config_else_env Text.virtual_ip Text.connection parser environ false none
  virtual_ip ← address ip (truthy set_ip)
  libpg_string ← truthy (lookup Text.database environ)
  default_firmware_path ← config_else_env Text.default Text.firmware parser environ true none
  pulse_firmware_path ← config_else_env Text.pulse_count Text.firmware parser environ true none
  some (record {
    worker_name = worker_name;
    server_port = server_port;
    virtual_server_port = virtual_server_port;
    control_server_url = control_server_url;
    virtual_ip = virtual_ip;
    libpg_string = libpg_string;
    default_firmware_path = default_firmware_path;
    pulse_firmware_path = pulse_firmware_path;
  })
