-- ===== src/Logs.antt =====
-- Log rows on their way to the control server: `RemoteLogger` of
-- src/usbipice/utils/RemoteLogger.py, and the endpoint `/log` of src/usbipice/control/app.py.
pub mod Delivery
use usbip_ice.Base.{
  ℕ, Name, Bool, true, false, ◌&&◌, Option, none, some, List, [], ◌∷◌, ◌++◌, ◌==◌, if◌then◌else◌,
  is_empty,
}
use usbip_ice.Requests.{
  Json, null, boolean, integer, text, array, object, Items, nil, cons, Members, end, member,
  Annotation, class, str, list, Result, returned_true, Response, status,
}
use usbip_ice.Endpoints.{name_key, serve}

-- A row of the backlog
pub record Row : Type 0 where
  pub level : ℕ
  pub msg : Name

-- `local` has what was given to the logger that is wrapped.
pub record RemoteLogger : Type 0 where
  pub local : List Row
  pub backlog : List Row

-- `log`, to which `debug` and the others give their levels
pub log : Row → RemoteLogger → RemoteLogger
log row r = record { local = r.local ++ row ∷ []; backlog = r.backlog ++ row ∷ [] }

abbrev pub debug_level : ℕ
debug_level = 10

abbrev pub info_level : ℕ
info_level = 20

abbrev pub warning_level : ℕ
warning_level = 30

abbrev pub error_level : ℕ
error_level = 40

abbrev pub critical_level : ℕ
critical_level = 50

unfoldable pub debug : Name → RemoteLogger → RemoteLogger
unfolding log
debug msg r = log (record { level = debug_level; msg = msg }) r

unfoldable pub info : Name → RemoteLogger → RemoteLogger
unfolding log
info msg r = log (record { level = info_level; msg = msg }) r

unfoldable pub warning : Name → RemoteLogger → RemoteLogger
unfolding log
warning msg r = log (record { level = warning_level; msg = msg }) r

unfoldable pub error : Name → RemoteLogger → RemoteLogger
unfolding log
error msg r = log (record { level = error_level; msg = msg }) r

unfoldable pub critical : Name → RemoteLogger → RemoteLogger
unfolding log
critical msg r = log (record { level = critical_level; msg = msg }) r

-- What the control server's logger is given: a level, and the client's name and the message that
-- are put into one text
pub record Line : Type 0 where
  pub line_level : ℕ
  pub client : Name
  pub line_msg : Json

-- The level of a call of `Logger.log`, which raises for anything but a number; a bool is one.
abbrev pub level_of : Json → Option ℕ
level_of (integer n) = some n
level_of (boolean true) = some 1
level_of (boolean false) = some 0
level_of _ = none

-- What a turn of the loop of `/log` does with a row
pub data Turn : Type 0 where
  skip raise : Turn
  entry : Json → Json → Turn

abbrev pub has_two : Members → Bool
has_two (member _ _ (member _ _ end)) = true
has_two _ = false

-- `letters` has the characters of a text that has two. A row must have a length; a dict of two
-- is not indexed by 0.
abbrev pub turn_of : (Name → Option (Json × Json)) → Json → Turn
turn_of letters (array (cons level (cons msg nil))) = entry level msg
turn_of letters (array _) = skip
turn_of letters (object m) = if has_two m then raise else skip
turn_of letters (text s) = elim (letters s) [ none ↦ skip | some p ↦ entry p.0 p.1 ]
turn_of letters _ = raise

abbrev pub logs_key : Name
logs_key = 7

-- The rows as `requests` dumps them: a tuple becomes a list.
abbrev pub dumped : List Row → Items
dumped [] = nil
dumped (row ∷ rows) =
    cons (array (cons (integer row.level) (cons (text row.msg) nil))) (dumped rows)

abbrev pub log_body : Name → List Row → Json
log_body client_name logs =
    object (member logs_key (array (dumped logs)) (member name_key (text client_name) end))

abbrev pub is_ok : Response Unit → Bool
is_ok (status code) = code == 200
is_ok _ = false

-- "[RemoteLogger] failed to send log results"
abbrev failed_to_send : Name
failed_to_send = 1

-- The exception of `_send` is handled: the wrapped logger gets an error.
pub fail : RemoteLogger → RemoteLogger
fail r = record r { local = r.local ++ record { level = error_level; msg = failed_to_send } ∷ [] }

-- What follows the request of `_send`: an answer other than 200 raises.
pub answered : Response Unit × List Line → RemoteLogger → RemoteLogger × List Line
unfolding fail
answered (response, lines) r = (if is_ok response then r else fail r, lines)

pub data Act : Type 0 where
  logged : Row → Act
  sent : Bool → Act

module _ (letters : Name → Option (Json × Json)) where
  -- The loop of `/log`: what it logs, and whether it ends without an exception
  pub log_rows : Name → Items → List Line → Bool × List Line
  log_rows name nil lines = (true, lines)
  log_rows name (cons row rows) lines = elim (turn_of letters row) [
    | skip ↦ log_rows name rows lines
    | raise ↦ (false, lines)
    | entry level msg ↦ elim (level_of level) [
      | none ↦ (false, lines)
      | some n ↦
          log_rows name rows
            (lines ++ record { line_level = n; client = name; line_msg = msg } ∷ [])
    ]
  ]

  -- The handler of `/log`
  pub log_handler : List Json → List Line → Option (Result Unit) × List Line
  unfolding log_rows
  log_handler (text name ∷ array logs ∷ []) lines =
      let (returned, lines') = log_rows name logs lines in
      (if returned then some returned_true else none, lines')
  log_handler _ lines = (none, lines)

  pub get_log : Bool → Option Json → List Line → Response Unit × List Line
  unfolding serve log_handler
  get_log is_json body lines =
      serve log_handler ((name_key, class str) ∷ (logs_key, class list) ∷ []) is_json body lines

  -- A turn of `_send`, and whether the request reaches the server: the backlog is emptied in any
  -- case, and a failure is told to the wrapped logger.
  unfoldable pub send : Bool → Name → RemoteLogger × List Line → RemoteLogger × List Line
  unfolding get_log answered fail
  send reaches client_name (r, lines) =
      let emptied = record r { backlog = [] } in
      if is_empty r.backlog
      then (emptied, lines)
      else if reaches
      then answered (get_log true (some (log_body client_name r.backlog)) lines) emptied
      else (fail emptied, lines)

  unfoldable pub act : Name → Act → RemoteLogger × List Line → RemoteLogger × List Line
  unfolding log send
  act client_name (logged row) (r, lines) = (log row r, lines)
  act client_name (sent reaches) s = send reaches client_name s

  abbrev pub run : Name → List Act → RemoteLogger × List Line → RemoteLogger × List Line
  run client_name [] s = s
  run client_name (a ∷ acts) s = run client_name acts (act client_name a s)
