-- ===== src/Endpoints/Socket.antt =====
-- The socket handler `handle` of requests in src/usbipice/worker/app.py. The threads of a batch
-- share the loop's variable, as those of `Control.reserve` do.
use usbip_ice.Base.{Name, not, ◌&&◌, Option, none, some, List, [], ◌∷◌, map, ◌==◌, if◌then◌else◌}
use usbip_ice.Base.Dict.{Dict}
use usbip_ice.Control.Threads.{Act, run, start}
use usbip_ice.Requests.{
  is_true, Json, text, array, object, Items, nil, cons, Members, end, member, get, EventMethod,
  forward_request,
}
use usbip_ice.Endpoints.{serial_key}

abbrev pub event_key : Name
event_key = 8

abbrev pub contents_key : Name
contents_key = 9

abbrev pub list_of : Items → List Json
list_of nil = []
list_of (cons v items) = v ∷ list_of items

-- What the handler makes of a packet: nothing, a request for one serial, or one for each of several
pub data Packet : Type 0 where
  dropped : Packet
  single : Json → Json → Json → Packet
  batch : List Json → Json → Json → Packet

abbrev pub sort_packet : Json → Json → Json → Packet
sort_packet (array serials) event contents = batch (list_of serials) event contents
sort_packet serial event contents = single serial event contents

-- The socket's client, and the packet, `none` where it does not parse. An exception, as where the
-- packet is no object, drops it too.
unfoldable pub read_packet : Option Name → Option Json → Packet
read_packet none data_ = dropped
read_packet (some client) (some (object m)) =
    if not (client == 0)
      && (is_true (get m serial_key) && (is_true (get m event_key) && is_true (get m contents_key)))
    then sort_packet (get m serial_key) (get m event_key) (get m contents_key)
    else dropped
read_packet (some client) _ = dropped

module _ {A : Type 0} (methods : Dict (Dict (EventMethod A))) (devs : Dict Name) where
  -- `manager.handleRequest`. Other values name no device or no event, or raise.
  abbrev pub forward : Json → Json → Json → Option A
  forward (text serial) (text event) (object contents) =
      forward_request methods devs serial event contents
  forward _ _ _ = none

  abbrev pub handle_packet : List Act → Packet → List (Option A)
  handle_packet acts dropped = []
  handle_packet acts (single serial event contents) = forward serial event contents ∷ []
  handle_packet acts (batch serials event contents) =
      map (λ s. forward s event contents) (run acts (start serials)).sent

  -- `handle`, where `acts` is the order of the loop's turns and of the threads: the methods that
  -- are called
  unfoldable pub handle : List Act → Option Name → Option Json → List (Option A)
  unfolding read_packet
  handle acts client data_ = handle_packet acts (read_packet client data_)

-- What `requestBatchWorker` sends
abbrev pub batch_body : Items → Name → Members → Json
batch_body serials event contents = object (
    member serial_key (array serials)
      (member event_key (text event) (member contents_key (object contents) end)))

-- What `requestWorker` sends for one serial
abbrev pub request_body : Name → Name → Members → Json
request_body serial event contents = object (
    member serial_key (text serial)
      (member event_key (text event) (member contents_key (object contents) end)))

-- `UsbipBaseClient.unbind`, whose event is "unbind"
abbrev pub unbind_event : Name
unbind_event = 10

abbrev pub unbind_body : Name → Json
unbind_body serial = request_body serial unbind_event end
