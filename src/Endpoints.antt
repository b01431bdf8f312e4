-- ===== src/Endpoints.antt =====
-- The HTTP endpoints of src/usbipice/control/app.py and src/usbipice/worker/app.py, each behind the
-- wrapper of src/usbipice/utils/web.py, and the requests that are made to them.
pub mod ControlApp
pub mod WorkerApp
pub mod Serving
pub mod Socket
pub mod Batching
pub mod Releasing
pub mod Granting
use usbip_ice.Base.{ℕ, Name, Bool, Option, none, some, List}
use usbip_ice.Requests.{
  Json, Annotation, Result, value, Response, status, json, raised, reply, respond,
}

-- The keys of bodies
abbrev pub amount_key : Name
amount_key = 1

abbrev pub name_key : Name
name_key = 2

abbrev pub kind_key : Name
kind_key = 3

abbrev pub args_key : Name
args_key = 4

abbrev pub serials_key : Name
serials_key = 5

abbrev pub serial_key : Name
serial_key = 6

module _ {A S : Type 0} where
  -- What the wrapper makes of a handler's result; `none` is an exception of the handler.
  abbrev pub reply_to : Option (Result A) × S → Response A × S
  reply_to (none, s) = (raised, s)
  reply_to (some r, s) = (reply r, s)

  abbrev pub handle :
      (List Json → S → Option (Result A) × S) → Response (List Json) → S → Response A × S
  handle func (json args) s = reply_to (func args s)
  handle func (status n) s = (status n, s)
  handle func raised s = (raised, s)

  -- `handler_wrapper` around a handler that changes a state: the checks of `respond` decide whether
  -- the handler is called, and with which values.
  unfoldable pub serve :
      (List Json → S → Option (Result A) × S)
      → List (Name × Annotation)
      → Bool
      → Option Json
      → S
      → Response A × S
  unfolding respond
  serve func params is_json body s = handle func (respond value params is_json body) s

  -- `BaseAPI.request`: the parsed answer, or `False` where the status is not 200 or the answer
  -- has no JSON; a failed request changes nothing.
  abbrev pub parsed : Response A × S → Option A × S
  parsed (json a, s) = (some a, s)
  parsed (_, s) = (none, s)
