-- ===== src/Client/Tracking.antt =====
-- The devices a client tracks, through its reservations and their ends.
use usbip_ice.Base.{
  suc, Name, ◌≡◌, refl, false, ◌||◌, Option, none, some, List, [], ◌∷◌, ◌++◌, map, arith, ◌==◌,
  if◌then◌else◌, contains,
}
use usbip_ice.Base.Dict.{has_key, lookup-insert, lookup-erase}
use usbip_ice.Client.{
  Value, ConnectionInfo, Row, Client, add_serial, api_remove_serial, get_connection_info, add_rows,
  disconnect_worker, drop_connection, remove_serial, remove_all,
}

abbrev pub row_serials : List Row → List Name
row_serials rows = map (λ (r : Row). r.serial) rows

-- The address under which a device is tracked.
abbrev pub address : Option ConnectionInfo → Option (Value × Value)
address none = none
address (some i) = some (i.ip, i.server_port)

-- What the rows of an answer leave tracked: the last row of a device counts.
pub record Tracks (rows : List Row) (c c' : Client) : Type 0 where
  pub other_devices :
      (s : Name)
      → contains s (row_serials rows) ≡ false
      → get_connection_info s c' ≡ get_connection_info s c
  pub reserved_devices :
      (before after : List Row) (row : Row)
      → rows ≡ before ++ row ∷ after
      → contains row.serial (row_serials after) ≡ false
      → address (get_connection_info row.serial c') ≡ some (row.ip, row.serverport)
  pub same_sockets : c'.worker_sockets ≡ c.worker_sockets

tracked_row : Row → Client → Client
tracked_row row c =
    record (add_serial row.serial
      (record { ident = c.next; ip = row.ip; server_port = row.serverport }) c) {
        next = suc c.next;
      }

tracked_row_lem :
    (s : Name) (row : Row) (c : Client)
    → get_connection_info s (tracked_row row c) ≡ (
        if s == row.serial
        then some (record { ident = c.next; ip = row.ip; server_port = row.serverport })
        else get_connection_info s c)
unfolding tracked_row add_serial
tracked_row_lem s row c =
    lookup-insert s row.serial
      (record { ident = c.next; ip = row.ip; server_port = row.serverport }) c.connection_info

add_rows-others :
    (rows : List Row) (c : Client) (s : Name)
    → contains s (row_serials rows) ≡ false
    → get_connection_info s (add_rows rows c) ≡ get_connection_info s c
unfolding add_rows tracked_row
add_rows-others [] c s h = refl
add_rows-others (row ∷ rows) c s h =
    ground (arith, add_rows-others rows (tracked_row row c) s, tracked_row_lem s row c)

add_rows-split :
    (before after : List Row) (row : Row) (c : Client)
    → contains row.serial (row_serials after) ≡ false
    → address (get_connection_info row.serial (add_rows (before ++ row ∷ after) c))
      ≡ some (row.ip, row.serverport)
unfolding add_rows tracked_row
add_rows-split [] after row c h = ground (
  arith,
  add_rows-others after (tracked_row row c) row.serial h,
  tracked_row_lem row.serial row c,
)
add_rows-split (r ∷ before) after row c h = add_rows-split before after row (tracked_row r c) h

tracked_split :
    (rows before after : List Row) (row : Row) (c : Client)
    → rows ≡ before ++ row ∷ after
    → contains row.serial (row_serials after) ≡ false
    → address (get_connection_info row.serial (add_rows rows c)) ≡ some (row.ip, row.serverport)
tracked_split rows before after row c e h = rw e (add_rows-split before after row c h)

pub add_rows-sockets :
    (rows : List Row) (c : Client) → (add_rows rows c).worker_sockets ≡ c.worker_sockets
unfolding add_rows tracked_row add_serial
add_rows-sockets [] c = refl
add_rows-sockets (row ∷ rows) c = add_rows-sockets rows (tracked_row row c)

pub add_rows-has_key :
    (rows : List Row) (c : Client) (s : Name)
    → has_key s (add_rows rows c).connection_info
      ≡ (contains s (row_serials rows) || has_key s c.connection_info)
unfolding add_rows tracked_row
add_rows-has_key [] c s = refl
add_rows-has_key (row ∷ rows) c s =
    ground (arith, add_rows-has_key rows (tracked_row row c) s, tracked_row_lem s row c)

pub add_rows-control :
    (rows : List Row) (c : Client) → (add_rows rows c).control_socket ≡ c.control_socket
unfolding add_rows tracked_row add_serial
add_rows-control [] c = refl
add_rows-control (row ∷ rows) c = add_rows-control rows (tracked_row row c)

-- The loop of `reserve` tracks each device of the answer under the address of its last row, leaves
-- the other devices as they were, and opens or closes no socket.
pub add_rows-Tracks : (rows : List Row) (c : Client) → Tracks rows c (add_rows rows c)
add_rows-Tracks rows c = record {
  other_devices = add_rows-others rows c;
  reserved_devices = λ before after row e h. tracked_split rows before after row c e h;
  same_sockets = add_rows-sockets rows c;
}

module _ (format : Value → Value → Name) where
  remove_serial-lookup :
      (j s : Name) (c : Client)
      → get_connection_info j (remove_serial format s c)
        ≡ (if j == s then none else get_connection_info j c)
  unfolding remove_serial api_remove_serial drop_connection disconnect_worker
  remove_serial-lookup j s c = ground (arith, lookup-erase j s c.connection_info)

  -- After the loop of `end` and of `endAll` over the serials of an answer, a device is tracked
  -- exactly if it was before and its serial is not among them, and then as before.
  pub remove_all-untracks :
      (l : List Name) (c : Client) (s : Name)
      → get_connection_info s (remove_all format l c)
        ≡ (if contains s l then none else get_connection_info s c)
  unfolding remove_all
  remove_all-untracks [] c s = refl
  remove_all-untracks (x ∷ l) c s =
      ground (arith, remove_all-untracks l (remove_serial format x c) s, remove_serial-lookup s x c)
