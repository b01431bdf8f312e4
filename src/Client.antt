-- ===== src/Client.antt =====
-- The client library: src/usbipice/client/lib/BaseAPI.py, BaseClient.py and EventServer.py. A call
-- takes the control server's answer; `format` is the text f"http://{ip}:{server_port}" of a URL.
pub mod Tracking
pub mod Sharing
pub mod Waiting
pub mod Reach
pub mod Closing
pub mod Batches
use usbip_ice.Base.{
  ℕ, suc, Name, Bool, true, false, ◌&&◌, ◌||◌, Option, none, some, List, [], ◌∷◌, ◌++◌, map, ◌==◌,
  if◌then◌else◌, is_empty,
}
use usbip_ice.Client.Waiting.{Handler, start_waiting, has_finished, handle_all}
use usbip_ice.Base.Dict.{Dict, lookup, has_key, insert, erase, keys}

-- A value of the parsed JSON. A text and a number are never equal.
pub data Value : Type 0 where
  text number : ℕ → Value

abbrev pub value_eq : Value → Value → Bool
value_eq (text a) (text b) = a == b
value_eq (number a) (number b) = a == b
value_eq _ _ = false

-- `class ConnectionInfo`; `ident` tells objects apart, as `is` does.
pub record ConnectionInfo : Type 0 where
  pub ident : ℕ
  pub ip : Value
  pub server_port : Value

-- `ConnectionInfo.__eq__`
pub info_eq : ConnectionInfo → ConnectionInfo → Bool
info_eq self value = value_eq self.ip value.ip && value_eq self.server_port value.ip

-- `info in values`: an element is the object itself, or equal to it.
pub in_values : ConnectionInfo → Dict ConnectionInfo → Bool
unfolding info_eq
in_values info [] = false
in_values info ((_, x) ∷ d) = (x.ident == info.ident || info_eq x info) || in_values info d

-- A row of the answer to `/reserve`.
pub record Row : Type 0 where
  pub serial : Name
  pub ip : Value
  pub serverport : Value

-- `BaseAPI` with its `EventServer`: the tracked devices, the sockets to workers (`false` where
-- the connection failed), and whether the control socket is connected. `next` is a new object's
-- identity.
pub record Client : Type 0 where
  pub connection_info : Dict ConnectionInfo
  pub worker_sockets : Dict Bool
  pub control_socket : Bool
  pub next : ℕ

pub add_serial : Name → ConnectionInfo → Client → Client
add_serial serial info c = record c { connection_info = insert serial info c.connection_info }

-- `BaseAPI.removeSerial`
pub api_remove_serial : Name → Client → Bool × Client
api_remove_serial serial c =
    if has_key serial c.connection_info
    then (true, record c { connection_info = erase serial c.connection_info })
    else (false, c)

abbrev pub get_serials : Client → List Name
get_serials c = keys c.connection_info

abbrev pub get_connection_info : Name → Client → Option ConnectionInfo
get_connection_info serial c = lookup serial c.connection_info

pub using_connection : ConnectionInfo → Client → Bool
unfolding in_values
using_connection info c = in_values info c.connection_info

-- The loop of `BaseAPI.reserve`
pub add_rows : List Row → Client → Client
unfolding add_serial
add_rows [] c = c
add_rows (row ∷ rows) c =
    add_rows rows
      (record (add_serial row.serial
        (record { ident = c.next; ip = row.ip; server_port = row.serverport }) c) {
          next = suc c.next;
        })

-- `BaseAPI.reserve`, given the control server's answer or `False`
pub api_reserve : Option (List Row) → Client → Option (List Name) × Client
unfolding add_rows
api_reserve none c = (none, c)
api_reserve (some rows) c = (some (map (λ (r : Row). r.serial) rows), add_rows rows c)

-- `EventServer.disconnectWorker`: a failed socket counts as none.
pub disconnect_worker : Name → Client → Client
disconnect_worker url c = elim (lookup url c.worker_sockets) [
  | none ↦ c
  | some sio ↦ if sio then record c { worker_sockets = erase url c.worker_sockets } else c
]

-- `EventServer.connectWorker`; `connects url` says whether the connection succeeds. `none` is the
-- exception that there is no control socket.
pub connect_worker : (Name → Bool) → Name → Client → Option Client
connect_worker connects url c =
    if c.control_socket
    then some (
        if has_key url c.worker_sockets
        then c
        else record c { worker_sockets = insert url (connects url) c.worker_sockets })
    else none

-- `connectControl`, whose socket is `False` where the connection failed
unfoldable pub connect_control : Bool → Client → Client
connect_control connected c = record c { control_socket = connected }

-- The loop of `EventServer.exit` over the URLs
pub disconnect_all : List Name → Client → Client
unfolding disconnect_worker
disconnect_all [] c = c
disconnect_all (url ∷ urls) c = disconnect_all urls (disconnect_worker url c)

-- `EventServer.exit`
pub exit : Client → Client
unfolding disconnect_all
exit c = disconnect_all (keys c.worker_sockets) c

-- `EventServer.sendWorker` of data that can be dumped: whether it is emitted
pub send_worker : Name → Client → Bool
send_worker url c = elim (lookup url c.worker_sockets) [ none ↦ false | some sio ↦ sio ]

-- The call that may wait has returned, once the "initialized" events of the serials were handled.
abbrev pub has_returned : List Name → Option Handler → Bool
has_returned initialized none = true
has_returned initialized (some eh) = has_finished (handle_all initialized eh)

module _ (format : Value → Value → Name) where
  -- `ConnectionInfo.url`
  abbrev pub url : ConnectionInfo → Name
  url info = format info.ip info.server_port

  pub drop_connection : Option ConnectionInfo → Client → Client
  unfolding using_connection disconnect_worker
  drop_connection none c = c
  drop_connection (some info) c =
      if using_connection info c then c else disconnect_worker (url info) c

  -- `BaseClient.removeSerial`
  pub remove_serial : Name → Client → Client
  unfolding api_remove_serial drop_connection
  remove_serial serial c =
      drop_connection (get_connection_info serial c) (api_remove_serial serial c).1

  -- The loop of `end` and of `endAll`
  pub remove_all : List Name → Client → Client
  unfolding remove_serial
  remove_all [] c = c
  remove_all (serial ∷ l) c = remove_all l (remove_serial serial c)

  -- `end` and `endAll`, given the control server's answer or `False`
  unfoldable pub end_answered : Option (List Name) → Client → Option (List Name) × Client
  unfolding remove_all
  end_answered none c = (none, c)
  end_answered (some l) c = (some l, remove_all l c)

  -- The loop of `BaseClient.reserve`; a serial with no connection info raises.
  pub connect_all : (Name → Bool) → List Name → Client → Option Client
  unfolding connect_worker
  connect_all connects [] c = some c
  connect_all connects (serial ∷ l) c = elim (get_connection_info serial c) [
    | none ↦ none
    | some info ↦ elim (connect_worker connects (url info) c) [
      | none ↦ none
      | some c' ↦ connect_all connects l c'
    ]
  ]

  -- `BaseClient.reserve`, given the control server's answer or `False`: what it returns, the
  -- client, and the event handler if it waits for initialization before that; or `none` for an
  -- exception.
  unfoldable pub reserve :
      (Name → Bool)
      → Option (List Row)
      → Client
      → Handler
      → Option (Option (List Name) × Client × Option Handler)
  unfolding api_reserve connect_all
  reserve connects none c eh = some (none, c, none)
  reserve connects (some []) c eh = some (some [], c, none)
  reserve connects (some (row ∷ rows)) c eh =
      let connected : List Name = map (λ (r : Row). r.serial) (row ∷ rows) in
      elim (connect_all connects connected (api_reserve (some (row ∷ rows)) c).1) [
        | none ↦ none
        | some c' ↦ some (some connected, c', some (start_waiting connected eh))
      ]

  -- `requestWorker`
  pub request_worker : Name → Client → Bool
  unfolding send_worker
  request_worker serial c = elim (get_connection_info serial c) [
    | none ↦ false
    | some info ↦ send_worker (url info) c
  ]
