-- ===== src/Endpoints/WorkerApp.antt =====
-- The endpoints `/reserve` and `/unreserve` of src/usbipice/worker/app.py, and the requests that
-- src/usbipice/control/Control.py makes to them.
use usbip_ice.Base.{Name, Bool, Option, none, some, List, [], ◌∷◌, String}
use usbip_ice.Requests.{
  Json, text, object, Members, end, member, class, str, dict, Result, returned_true, returned_false,
  Response,
}
use usbip_ice.Device.{Env}
use usbip_ice.Device.Manager
use usbip_ice.Device.Manager.{Manager, Reply, done, failed}
use usbip_ice.Endpoints.{kind_key, args_key, serial_key, serve}

-- The result of a method of `DeviceManager`, `none` where it raised
abbrev pub result_of : Reply → Option (Result Unit)
result_of done = some returned_true
result_of failed = some returned_false
result_of Reply.raised = none

-- `spelled` is the text that a name stands for.
module _ (env : Env) (spelled : Name → String) where
  -- No other values pass the check of types, here and below.
  unfoldable pub reserve : List Json → Manager → Option (Result Unit) × Manager
  reserve (text serial ∷ text kind ∷ object args ∷ []) m =
      let (reply, m') = Manager.reserve env serial (spelled kind) args m in (result_of reply, m')
  reserve _ m = (none, m)

  -- `devices_bus`
  unfoldable pub unreserve : List Json → Manager → Option (Result Unit) × Manager
  unreserve (text serial ∷ []) m =
      let (reply, m') = Manager.unreserve env serial m in (result_of reply, m')
  unreserve _ m = (none, m)

  unfoldable pub get_reserve : Bool → Option Json → Manager → Response Unit × Manager
  unfolding serve reserve
  get_reserve is_json body m =
      serve reserve ((serial_key, class str) ∷ (kind_key, class str) ∷ (args_key, class dict) ∷ [])
        is_json body m

  unfoldable pub get_unreserve : Bool → Option Json → Manager → Response Unit × Manager
  unfolding serve unreserve
  get_unreserve is_json body m = serve unreserve ((serial_key, class str) ∷ []) is_json body m

-- The bodies of `send_reserve` and of `__notifyEnd`
abbrev pub reserve_body : Name → Name → Members → Json
reserve_body serial kind args = object (
    member serial_key (text serial)
      (member kind_key (text kind) (member args_key (object args) end)))

abbrev pub unreserve_body : Name → Json
unreserve_body serial = object (member serial_key (text serial) end)
