-- ===== src/Client/Batches.antt =====
-- `requestBatchWorker` of src/usbipice/client/lib/BaseClient.py, while no device is added or
-- removed.
pub mod Answers
use usbip_ice.Base.{
  Name, ◌≡◌, refl, sym, ◌∙◌, Bool, true, false, not, ◌&&◌, ◌||◌, Option, none, some, List, [], ◌∷◌,
  ◌++◌, arith, ◌==◌, if◌then◌else◌, contains, contains-append, Bool-cases, ◌⊎◌, inl, inr,
}
use usbip_ice.Base.Dict.{lookup, has_key}
use usbip_ice.Client.{Value, ConnectionInfo, info_eq, Client, get_connection_info, send_worker, url}

-- The requests sent, each a URL with its serials, the result, and whether an exception ended it.
pub record Batches : Type 0 where
  pub sent : List (Name × List Name)
  pub failed_serials : List Name
  pub raised : Bool

-- `groupby` takes two keys for the same if they are one object or equal. `None` and an object are
-- compared by `ConnectionInfo.__eq__`, where `None` has no field `ip`: here `none`.
pub same_key : Option ConnectionInfo → Option ConnectionInfo → Option Bool
unfolding info_eq
same_key none none = some true
same_key (some x) (some y) = some (x.ident == y.ident || info_eq x y)
same_key _ _ = none

module _ (format : Value → Value → Name) where
  -- The body of the loop
  pub send_batch : Client → Option ConnectionInfo → List Name → Batches → Batches
  unfolding send_worker
  send_batch c none batch r = r
  send_batch c (some info) batch r =
      if send_worker (url format info) c
      then record r { sent = r.sent ++ (url format info, batch) ∷ [] }
      else record r { failed_serials = r.failed_serials ++ batch }

  -- The loop over `groupby`, with the key of the group and its serials so far. A group is taken to
  -- its end before its request is sent.
  pub send_groups : Client → Option ConnectionInfo → List Name → List Name → Batches → Batches
  unfolding same_key send_batch
  send_groups c key batch [] r = send_batch c key batch r
  send_groups c key batch (s ∷ l) r = elim (same_key key (get_connection_info s c)) [
    | none ↦ record r { raised = true }
    | some same ↦
        send_groups c (if same then key else get_connection_info s c)
          (if same then batch ++ s ∷ [] else s ∷ []) l
          (if same then r else send_batch c key batch r)
  ]

  -- `requestBatchWorker`
  pub request_batch_worker : Client → List Name → Batches
  unfolding send_groups
  request_batch_worker c [] = record { sent = []; failed_serials = []; raised = false }
  request_batch_worker c (s ∷ l) =
      send_groups c (get_connection_info s c) (s ∷ []) l
        (record { sent = []; failed_serials = []; raised = false })
