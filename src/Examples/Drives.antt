-- ===== src/Examples/Drives.antt =====
-- Paths of devices, drives, and typed requests.
use usbip_ice.Base.{
  ℕ, Name, ◌≡◌, refl, Bool, true, false, not, ◌&&◌, ◌||◌, some, List, [], ◌∷◌, arith, ◌==◌,
  if◌then◌else◌, length,
}
use usbip_ice.Requests
use usbip_ice.Requests.{
  Json, Members, end, member, Annotation, EventMethod, Result, respond, status,
}
use usbip_ice.Requests.Types.{Arguments}
use usbip_ice.Requests.Types.Handlers.{respond-typed}
use usbip_ice.Requests.Registration.{Decorated}
use usbip_ice.Requests.Registration.Calls.{Calls, register_all-Calls}
use usbip_ice.Files.Busid.{get_busid}
use usbip_ice.Files.Busid.Segments.{spell}
use usbip_ice.Files.Busid.Search.{get_busid-spell}
use usbip_ice.Files
use usbip_ice.Files.Ports.{after_scheme, connections, usbip_port}
use usbip_ice.Files.Ports.Printed.{Connection, bus, IsPrinted, spell as printed}
use usbip_ice.Files.Ports.Printed.Reading.{addresses, connections-spell}
use usbip_ice.Files.Mounts.{
  Target, location, partition, Commands, upload_firmware, upload_firmware_path, mount,
}
use usbip_ice.Files.Mounts.Unmounted.{concerns, AreDocumented, uploads-unmount}

-- "/x/usb1/1-1/1-1.4:1.0/tty"
abbrev segments : List (List ℕ)
segments =
    (b'x' ∷ [])
    ∷ (b'u' ∷ b's' ∷ b'b' ∷ b'1' ∷ [])
    ∷ (b'1' ∷ b'-' ∷ b'1' ∷ [])
    ∷ (b'1' ∷ b'-' ∷ b'1' ∷ b'.' ∷ b'4' ∷ b':' ∷ b'1' ∷ b'.' ∷ b'0' ∷ [])
    ∷ (b't' ∷ b't' ∷ b'y' ∷ [])
    ∷ []

get_busid-spell_example : get_busid (spell segments) ≡ some (b'1' ∷ b'-' ∷ b'1' ∷ b'.' ∷ b'4' ∷ [])
get_busid-spell_example = get_busid-spell segments refl

-- " usbip://10.0.0.2:3240/1-1.4 ", and its reading
abbrev connection : Connection
connection = record {
  before = b' ' ∷ [];
  ip = b'1' ∷ b'0' ∷ b'.' ∷ b'0' ∷ b'.' ∷ b'0' ∷ b'.' ∷ b'2' ∷ [];
  port = b'3' ∷ b'2' ∷ b'4' ∷ b'0' ∷ [];
  number = b'1' ∷ [];
  ports = b'1' ∷ b'.' ∷ b'4' ∷ [];
}

connection-IsPrinted : IsPrinted connection
unfolding after_scheme
connection-IsPrinted = record {
  no_scheme = refl;
  ends_bus = refl;
  no_colon = refl;
  no_dash = refl;
  port_number = refl;
  bus_number = refl;
  bus_ports = refl;
}

connections-spell_example :
    (connections (printed (connection ∷ []) (b' ' ∷ []))
      ≡ (some connection.ip, some (bus connection)) ∷ [])
    × (usbip_port length (printed (connection ∷ []) (b' ' ∷ []))
        ≡ Files.usbip_port (addresses length (connection ∷ [])))
unfolding after_scheme
connections-spell_example =
    connections-spell length (connection ∷ []) (b' ' ∷ []) (connection-IsPrinted, tt) refl refl

-- A system that keeps a table of the drives and their locations, where each location holds the
-- bootloader's files.
abbrev Table : Type 0
Table = List (Name × Name)

abbrev is_mounted : Table → Name → Name → Bool
is_mounted [] d l = false
is_mounted ((d', l') ∷ t) d l = (d == d' && l == l') || is_mounted t d l

abbrev without : Target → Table → Table
without target [] = []
without target ((d, l) ∷ t) =
    if concerns target d l then without target t else (d, l) ∷ without target t

abbrev commands : Commands Table
commands = record {
  run_mount = λ drive loc t. ((drive, loc) ∷ t, true);
  run_umount = λ target t. (without target t, true);
  listdir = λ loc t. some ("INDEX.HTM" ∷ "INFO_UF2.TXT" ∷ []);
  write_firmware = λ loc t. (t, true);
  run_cp = λ loc t. (t, false);
}

is_mounted-without :
    (target : Target) (t : Table) (d l : Name)
    → is_mounted (without target t) d l ≡ (is_mounted t d l && not (concerns target d l))
is_mounted-without (location x) [] d l = refl
is_mounted-without (partition x) [] d l = refl
is_mounted-without (location x) ((d', l') ∷ t) d l =
    ground (arith, is_mounted-without (location x) t d l)
is_mounted-without (partition x) ((d', l') ∷ t) d l =
    ground (arith, is_mounted-without (partition x) t d l)

commands-AreDocumented : AreDocumented commands is_mounted
commands-AreDocumented = record {
  after_mount = λ drive loc t d l. ground arith;
  after_umount = is_mounted-without;
  after_write = λ loc t d l. refl;
  after_cp = λ loc t d l. refl;
}

uploads-unmount_example :
    (is_mounted (upload_firmware commands 3 5 ((4, 6) ∷ [])).0 3 5 ≡ false)
    × (is_mounted (upload_firmware_path commands 3 5 ((4, 6) ∷ [])).0 3 5 ≡ false)
unfolding mount
uploads-unmount_example =
    uploads-unmount commands is_mounted commands-AreDocumented 3 5 ((4, 6) ∷ []) 3 5 (λ l. refl)
      (λ d. ground arith)

-- A handler of a serial, which it returns.
abbrev params : List (Name × Annotation)
params = (1, Annotation.class Requests.Class.str) ∷ []

abbrev func : List Json → Result Name
func (Json.text s ∷ []) = Result.value s
func _ = Result.returned_false

abbrev typed : Arguments params → Result Name
typed (s, _) = Result.value s

respond-typed_example :
    respond func params true (some (Json.object (member 1 (Json.text 7) end)))
    ≡ Requests.Response.json 7
respond-typed_example =
    respond-typed params func typed (member 1 (Json.text 7) end) refl (λ t. refl)

abbrev method : EventMethod ℕ
method = record { method = λ args. 9; parms = 1 ∷ []; annotations = Annotation.empty ∷ [] }

-- `evaluate`, for the method `queue`
abbrev decorated : List (Decorated ℕ)
decorated = record { name = 20; event = 21; event_method = method } ∷ []

register_all-Calls_example : Calls 5 decorated [] false
register_all-Calls_example = register_all-Calls 5 decorated [] refl
