-- ===== src/Client/Batches/Answers.antt =====
-- Which serials of a batch request are sent.
use usbip_ice.Base.{
  Name, ◌≡◌, Bool, true, false, not, ◌&&◌, ◌||◌, Option, none, some, List, [], ◌∷◌, if◌then◌else◌,
  contains,
}
use usbip_ice.Client.{Value, ConnectionInfo, Client, get_connection_info}
use usbip_ice.Client.Batches.{Batches}

abbrev pub in_sent : Name → List (Name × List Name) → Bool
in_sent k [] = false
in_sent k ((_, batch) ∷ sent) = contains k batch || in_sent k sent

-- The serial is in a request that was sent, or reported as failed.
abbrev pub is_told : Name → Batches → Bool
is_told k r = in_sent k r.sent || contains k r.failed_serials

abbrev is_some : Option ConnectionInfo → Bool
is_some none = false
is_some (some _) = true

abbrev pub is_tracked : Name → Client → Bool
is_tracked s c = is_some (get_connection_info s c)

abbrev pub some_tracked : List Name → Client → Bool
some_tracked [] c = false
some_tracked (s ∷ l) c = is_tracked s c || some_tracked l c

abbrev pub some_untracked : List Name → Client → Bool
some_untracked [] c = false
some_untracked (s ∷ l) c = not (is_tracked s c) || some_untracked l c

-- Some of the serials are tracked and some are not.
abbrev pub is_mixed : List Name → Client → Bool
is_mixed l c = some_tracked l c && some_untracked l c

-- Not all of them are as the first one.
abbrev differs : Bool → List Name → Client → Bool
differs b l c = if b then some_untracked l c else some_tracked l c

module _ (format : Value → Value → Name) (c : Client) (k : Name) where
  -- What the loop over the groups adds.
  abbrev Tells : Option ConnectionInfo → List Name → List Name → Batches → Batches → Type 0
  Tells key batch l r r' =
      (r'.raised ≡ (r.raised || differs (is_some key) l c))
      × ((r'.raised || is_told k r')
          ≡ (r'.raised || (is_told k r || (is_some key && (contains k batch || contains k l)))))
