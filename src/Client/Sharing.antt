-- ===== src/Client/Sharing.antt =====
-- Two devices on one worker, which share the client's socket to it.
use usbip_ice.Base.{Name, ◌≡◌, refl, Bool, true, false, some, [], ◌∷◌, arith, ◌==◌}
use usbip_ice.Base.Dict.{Dict, lookup, erase, lookup-erase}
use usbip_ice.Client.{
  Value, text, number, value_eq, ConnectionInfo, info_eq, in_values, Client, api_remove_serial,
  get_connection_info, using_connection, disconnect_worker, send_worker, url, drop_connection,
  remove_serial, request_worker,
}

abbrev pub is_text : Value → Bool
is_text (text _) = true
is_text (number _) = false

abbrev pub is_number : Value → Bool
is_number (text _) = false
is_number (number _) = true

-- Each address is a text with a port that is a number, and only `s` is tracked by the object `x`.
abbrev pub AreLocated : Name → ConnectionInfo → Dict ConnectionInfo → Type 0
AreLocated s x [] = Unit
AreLocated s x ((j, i) ∷ d) =
    (is_text i.ip ≡ true)
    × (is_number i.server_port ≡ true)
    × ((j == s) ≡ false → (i.ident == x.ident) ≡ false)
    × AreLocated s x d

text_number : (v w : Value) → is_text v ≡ true → is_number w ≡ true → value_eq w v ≡ false
text_number (text _) (text _) h k = ground arith
text_number (text _) (number _) h k = refl
text_number (number _) w h k = ground arith

in_values-erase :
    (s : Name) (x : ConnectionInfo) (d : Dict ConnectionInfo)
    → is_text x.ip ≡ true
    → AreLocated s x d
    → in_values x (erase s d) ≡ false
unfolding in_values info_eq
in_values-erase s x [] h l = refl
in_values-erase s x ((j, i) ∷ d) h l =
    ground (arith, in_values-erase s x d h l.3, text_number x.ip i.server_port h l.1, l.2)

module _ (format : Value → Value → Name) where
  -- Let every tracked address be a text with a number for its port, and the removed device share no
  -- object with another, and the socket to its worker be open. Then to remove one device closes the
  -- socket to its worker, whichever devices are still tracked there: a request for another device
  -- with that URL is sent before the removal and not after it.
  pub remove_serial-cuts_off :
      (s t : Name) (x y : ConnectionInfo) (c : Client)
      → get_connection_info s c ≡ some x
      → get_connection_info t c ≡ some y
      → (t == s) ≡ false
      → url format x ≡ url format y
      → is_text x.ip ≡ true
      → AreLocated s x c.connection_info
      → lookup (url format x) c.worker_sockets ≡ some true
      → (request_worker format t c ≡ true)
        × (request_worker format t (remove_serial format s c) ≡ false)
  unfolding request_worker send_worker remove_serial api_remove_serial drop_connection
      using_connection disconnect_worker
  remove_serial-cuts_off s t x y c hs ht n e h l o = ground (
    arith,
    in_values-erase s x c.connection_info h l,
    lookup-erase t s c.connection_info,
    lookup-erase (url format x) (url format x) c.worker_sockets,
  )
