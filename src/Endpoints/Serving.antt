-- ===== src/Endpoints/Serving.antt =====
-- What comes of the requests that the program itself makes.
use mathlib.Core.Option
use usbip_ice.Base.{ℕ, Name, ◌≡◌, refl, Bool, true, Option, none, some, List, String}
use usbip_ice.Requests.{
  Items, Members, Response, status, raised, reply, respond, typecheck, json_to_args, all_fit, fits,
  is_instance,
}
use usbip_ice.Control
use usbip_ice.Control.{Server}
use usbip_ice.Control.Threads.{Act}
use usbip_ice.Device.{Env}
use usbip_ice.Device.Manager
use usbip_ice.Device.Manager.{Manager, Reply, done, failed}
use usbip_ice.Endpoints.{serve, parsed, reply_to}
use usbip_ice.Endpoints.ControlApp
use usbip_ice.Endpoints.ControlApp.{
  Answer, granted, extended, ended, Call, extend_some, end_some, extend_each, end_each, texts,
  request_control, answer, answer_ended, get_control, make_reservations, extend, extendall,
  end_chosen, endall,
}
use usbip_ice.Endpoints.WorkerApp
use usbip_ice.Endpoints.WorkerApp.{
  get_reserve, get_unreserve, reserve_body, unreserve_body, result_of, unreserve,
}

module _ {C A : Type 0} (emit : ℕ → Bool) (dumps : Name → C → Option A) (event_named : String → C)
    (cast : Items → Option (List Name)) (acts : List Act) (up : Bool) (now : ℕ) where
  -- What the method of `Control` gives for a client's call, without a web server in between:
  -- `none` where it returns `False` or raises.
  unfoldable pub perform : Name → Call → Server A → Option Answer × Server A
  perform name (ControlApp.reserve amount kind args) c =
      let (rows, c') = Control.reserve acts up name amount kind args now c in
      (Option.map granted rows, c')
  perform name (extend_some serials) c =
      let (rows, c') = Control.extend up name serials now c in (Option.map extended rows, c')
  perform name extend_each c =
      let (rows, c') = Control.extend_all up name now c in (Option.map extended rows, c')
  perform name (end_some serials) c =
      let (l, c') = Control.end_chosen emit dumps event_named up name serials c in
      (Option.map ended l, c')
  perform name end_each c =
      let (l, c') = Control.end_all emit dumps event_named up name c in (Option.map ended l, c')

parsed-answer :
    {S : Type 0} (o : Option Answer) (s : S) → parsed (reply_to (some (answer o), s)) ≡ (o, s)
parsed-answer none s = refl
parsed-answer (some a) s = refl

parsed-ended :
    {S : Type 0} (l : Option (List Name)) (s : S)
    → parsed (reply_to (answer_ended l, s)) ≡ (Option.map ended l, s)
parsed-ended none s = refl
parsed-ended (some a) s = refl

module _ {C A : Type 0} (emit : ℕ → Bool) (dumps : Name → C → Option A) (event_named : String → C)
    (cast : Items → Option (List Name)) (acts : List Act) (up : Bool) (now : ℕ) where
  -- A request to reserve does what `Control.reserve` does.
  pub request_control-reserves :
      (name : Name) (amount : ℕ) (kind : Name) (args : Members) (c : Server A)
      → request_control emit dumps event_named cast acts up now name
          (ControlApp.reserve amount kind args)
          c
        ≡ perform emit dumps event_named cast acts up now name
            (ControlApp.reserve amount kind args)
            c
  unfolding perform request_control get_control serve respond typecheck json_to_args all_fit fits
      is_instance make_reservations
  request_control-reserves name amount kind args c =
      let (rows, c') = Control.reserve acts up name amount kind args now c in
      parsed-answer (Option.map granted rows) c'

  -- Let the database's driver take a list of texts for these texts. Then each request that a
  -- client's method makes of the control server passes the checks of the endpoint that it is
  -- made to, and does to the server, and returns to the client, what `Control`'s method does
  -- with the values that the client gave; where that method returns `False` or raises, the
  -- client gets `False`.
  pub request_control-performs :
      (name : Name) (call : Call) (c : Server A)
      → ((l : List Name) → cast (texts l) ≡ some l)
      → request_control emit dumps event_named cast acts up now name call c
        ≡ perform emit dumps event_named cast acts up now name call c
  unfolding perform request_control get_control serve respond typecheck json_to_args all_fit fits
      is_instance make_reservations extend extendall end_chosen endall
  request_control-performs name (ControlApp.reserve amount kind args) c h =
      request_control-reserves name amount kind args c
  request_control-performs name (extend_some serials) c h = rw (h serials) (
      let (rows, c') = Control.extend up name serials now c in
      parsed-answer (Option.map extended rows) c')
  request_control-performs name extend_each c h =
      let (rows, c') = Control.extend_all up name now c in
      parsed-answer (Option.map extended rows) c'
  request_control-performs name (end_some serials) c h = rw (h serials) (
      let (l, c') = Control.end_chosen emit dumps event_named up name serials c in
      parsed-ended l c')
  request_control-performs name end_each c h =
      let (l, c') = Control.end_all emit dumps event_named up name c in parsed-ended l c'

abbrev pub answered : Reply → Response Unit
answered done = status 200
answered failed = status 500
answered Reply.raised = raised

reply-answered : (r : Reply) (m : Manager) → reply_to (result_of r, m) ≡ (answered r, m)
reply-answered done m = refl
reply-answered failed m = refl
reply-answered Reply.raised m = refl

module _ (env : Env) (spelled : Name → String) where
  -- The requests that the control server makes pass the checks of a worker's endpoints: for
  -- `/unreserve` and for `/reserve` the worker does what `DeviceManager`'s method does with the
  -- serial and the kind that were sent, and answers with 200 for `True` and with 500 for
  -- `False`.
  worker-performs :
      (serial kind : Name) (args : Members) (m : Manager)
      → (get_unreserve env spelled true (some (unreserve_body serial)) m
          ≡ (let (reply, m') = Manager.unreserve env serial m in (answered reply, m')))
        × (get_reserve env spelled true (some (reserve_body serial kind args)) m ≡ (
            let (reply, m') = Manager.reserve env serial (spelled kind) args m in
            (answered reply, m')))
  unfolding get_unreserve get_reserve serve respond typecheck json_to_args all_fit fits is_instance
      unreserve WorkerApp.reserve
  worker-performs serial kind args m = (
    reply-answered (Manager.unreserve env serial m).0 (Manager.unreserve env serial m).1,
    reply-answered (Manager.reserve env serial (spelled kind) args m).0
        (Manager.reserve env serial (spelled kind) args m).1,
  )
