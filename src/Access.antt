-- ===== src/Access.antt =====
-- The Python access to the database: src/usbipice/utils/Database.py,
-- src/usbipice/control/ControlDatabase.py and src/usbipice/worker/WorkerDatabase.py. A call takes
-- whether the database can be reached. `none` stands for the returned `False`. Where a dict's keys
-- are fixed the model has a record, and `str` of an address or a port keeps the value.
pub mod ControlDatabase
pub mod WorkerDatabase
pub mod History
use mathlib.Core.Option
use usbip_ice.Base.{ℕ, Name, Bool, true, false, Option, none, some, List, map}
use usbip_ice.Schema.{Db}
use usbip_ice.Procedures.{Query}

-- Leaving `with psycopg.connect(…)`: an exception rolls back, and otherwise the call is committed.
abbrev pub settle : {A : Type 0} → Db → Option (A × Db) → Option A × Db
settle db none = (none, db)
settle db (some (a, db')) = (some a, db')

-- `Database.execute`: on any exception the result is `False`.
unfoldable pub execute : {A : Type 0} → Bool → Query A → Db → Option A × Db
execute false sql db = (none, db)
execute true sql db = settle db (sql db)

-- `Database.proc`
unfoldable pub proc : Bool → Query Unit → Db → Bool × Db
unfolding execute
proc up sql db =
    let (done, db') = execute up sql db in (elim done [ none ↦ false | some _ ↦ true ], db')

-- `Database.getData`, where `dict_of` zips the columns with a row and stringifies.
unfoldable pub get_data :
    {A B : Type 0} → Bool → Query (List A) → (A → B) → Db → Option (List B) × Db
unfolding execute
get_data up sql dict_of db =
    let (rows, db') = execute up sql db in (Option.map (map dict_of) rows, db')

-- The values of a worker's address, which the callers put into `http://{ip}:{port}`.
pub record Url : Type 0 where
  pub ip : Name
  pub port : ℕ
