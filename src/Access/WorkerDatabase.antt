-- ===== src/Access/WorkerDatabase.antt =====
-- `class WorkerDatabase` of src/usbipice/worker/WorkerDatabase.py.
use usbip_ice.Base.{ℕ, Name, Bool, false, Option, none, some, if◌then◌else◌}
use usbip_ice.Schema.{DeviceState, Db}
use usbip_ice.Procedures.{add_worker, remove_worker, update_device_status}
use usbip_ice.Procedures
use usbip_ice.Access.{execute, proc}

-- `__init__`: on a failure the constructor raises, and there is no object.
unfoldable pub init : Bool → Name → Name → ℕ → ℕ → Db → Bool × Db
unfolding proc
init up worker_name ip port now = proc up (add_worker worker_name ip port now)

unfoldable pub add_device : Bool → Name → Name → Db → Bool × Db
unfolding proc
add_device up worker_name serial = proc up (Procedures.add_device serial worker_name)

-- `False` on a failure, and `None`, here `none`, otherwise.
unfoldable pub update_status : Bool → Name → DeviceState → Db → Option Bool × Db
unfolding proc
update_status up serial status db =
    let (done, db') = proc up (update_device_status serial status) db in
    (if done then none else some false, db')

unfoldable pub on_exit : Bool → Name → Db → Db
unfolding execute
on_exit up worker_name db = (execute up (remove_worker worker_name) db).1
