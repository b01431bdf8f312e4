-- ===== src/Evaluation/Batch.antt =====
-- The request of an evaluation: `PulseCountBaseClient.evaluate` of
-- src/usbipice/client/lib/pulsecount.py, and the method `queue` that
-- src/usbipice/worker/device/state/reservable/PulseCountState.py registers for it.
use usbip_ice.Base.{Name, ◌≡◌, some, List, [], ◌∷◌}
use usbip_ice.Base.Dict.{Dict, lookup}
use usbip_ice.Requests.{Json, text, object, Members, end, member, empty, EventMethod}
use usbip_ice.Pulses.{Evaluator, queue}

abbrev pub files_key : Name
files_key = 11

abbrev pub evaluate_event : Name
evaluate_event = 12

-- The dict of files: the data of each under its identifier
abbrev pub files_members : Dict Name → Members
files_members [] = end
files_members ((iden, data_) ∷ files) = member iden (text data_) (files_members files)

-- The contents that `evaluate` sends
pub evaluate_contents : Dict Name → Members
evaluate_contents files = member files_key (object (files_members files)) end

abbrev pub names_of : Members → List Name
names_of end = []
names_of (member iden data_ m) = iden ∷ names_of m

-- What a call of `queue` does; anything but a dict raises before the queue changes.
abbrev pub queue_files : List Json → Evaluator → Evaluator
queue_files (object files ∷ []) e = queue (names_of files) e
queue_files _ e = e

-- `queue` as it is registered: its parameter has no annotation.
unfoldable pub queue_method : EventMethod (Evaluator → Evaluator)
queue_method = record { method = queue_files; parms = files_key ∷ []; annotations = empty ∷ [] }

-- The methods of states, where `pulse_count` is the class of `PulseCountState`
abbrev pub pulse_methods : Name → Dict (Dict (EventMethod (Evaluator → Evaluator)))
pulse_methods pulse_count = (pulse_count, (evaluate_event, queue_method) ∷ []) ∷ []

-- Every serial is of a device in a pulse count state.
abbrev pub AllCounting : Name → Dict Name → List Name → Type 0
AllCounting pulse_count devs [] = Unit
AllCounting pulse_count devs (s ∷ serials) =
    (lookup s devs ≡ some pulse_count) × AllCounting pulse_count devs serials
