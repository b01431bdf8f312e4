-- ===== src/Handlers/Messages.antt =====
-- Events on their way from a sender to the handlers of a client: `__packageContents` of
-- src/usbipice/utils/EventSender.py, and the callback of a socket with the handlers.
use usbip_ice.Base.{
  ℕ, Name, ◌≤◌, ◌≡◌, refl, ◌∙◌, ap, map, List, [], ◌∷◌, true, false, some, none, arith, ◌==◌,
  ==_iff, if◌then◌else◌,
}
use usbip_ice.Requests.{Json, text, object, Members, end, member, get, is_true, has_null}
use usbip_ice.Handlers.{
  Class, JsonMethodCall, call, Registry, handle_event, size, event_of, receive,
}
use usbip_ice.Handlers.Order.{find_method, handle_event_lem}

-- `contents[key] = value`
pub set_member : Name → Json → Members → Members
set_member key value end = member key value end
set_member key value (member k v m) =
    if key == k then member k value m else member k v (set_member key value m)

-- `__packageContents` before it is dumped, with the two keys
pub package_contents : Name → Name → Name → Members → Json
unfolding set_member
package_contents serial_key contents_key serial contents = object (
    member serial_key (text serial)
      (member contents_key (object (set_member serial_key (text serial) contents)) end))

get-set_member :
    (key : Name) (value : Json) (m : Members) (k : Name)
    → get (set_member key value m) k ≡ (if k == key then value else get m k)
unfolding set_member
get-set_member key value end k = refl
get-set_member key value (member j v m) k = ground (arith, get-set_member key value m k)

set_member-is_true :
    (key : Name) (value : Json) (m : Members) → is_true (object (set_member key value m)) ≡ true
unfolding set_member
set_member-is_true key value end = refl
set_member-is_true key value (member j v m) = ground arith

same_key : (k : Name) → (k == k) ≡ true
same_key k = (==_iff k k).1 refl

module _ (serial_key contents_key event_key : Name) (apart : (contents_key == serial_key) ≡ false)
    (distinct : (event_key == serial_key) ≡ false) where
  package-received :
      (serial event : Name) (contents : Members)
      → (serial == 0) ≡ false
      → (event == 0) ≡ false
      → get contents event_key ≡ text event
      → receive serial_key contents_key event_key
          (some (package_contents serial_key contents_key serial contents))
        ≡ event_of (text serial) (text event) (set_member serial_key (text serial) contents)
  unfolding receive package_contents
  package-received serial event contents hs he h =
      rw
        (
          apart,
          same_key contents_key,
          same_key serial_key,
          set_member-is_true serial_key (text serial) contents,
          get-set_member serial_key (text serial) contents event_key,
          distinct,
          h,
          hs,
          he,
        )
        refl

  values_lem :
      (serial : Name) (contents : Members) (parms : List Name)
      → map (get (set_member serial_key (text serial) contents)) parms
        ≡ map (λ k. if k == serial_key then text serial else get contents k) parms
  values_lem serial contents [] = refl
  values_lem serial contents (k ∷ parms) = rw (get-set_member serial_key (text serial) contents k) (
      ap (λ l. (if k == serial_key then text serial else get contents k) ∷ l)
        (values_lem serial contents parms))

  -- Let the serial's key be none of the two other keys, let an event with a name be sent for a
  -- serial that is not empty, and let the lookup in the classes of a handler find a method for
  -- the event, with fuel for each class. Then the client's callback takes the message for that
  -- event; and the handler calls the method, with the serial that was sent for and the other
  -- values of its keys in the contents, exactly if none of these is missing.
  pub message-handled :
      {A : Type 0} (n : ℕ) (registered : Registry A) (type_ : Class) (m : JsonMethodCall A)
      (serial event : Name) (contents : Members)
      → (serial == 0) ≡ false
      → (event == 0) ≡ false
      → get contents event_key ≡ text event
      → size type_ ≤ n
      → find_method registered event type_ ≡ some m
      → let args = map (λ k. if k == serial_key then text serial else get contents k) m.parms in
        let sent = set_member serial_key (text serial) contents in
        (receive serial_key contents_key event_key
            (some (package_contents serial_key contents_key serial contents))
          ≡ event_of (text serial) (text event) sent)
        × (handle_event n registered type_ event sent
            ≡ (if has_null args then none else some (m.fn args)))
  unfolding call
  message-handled n registered type_ m serial event contents hs he h enough found = (
    package-received serial event contents hs he h,
    handle_event_lem n registered type_ event (set_member serial_key (text serial) contents) enough
        ∙ rw found (rw (values_lem serial contents m.parms) refl),
  )
