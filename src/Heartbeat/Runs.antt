-- ===== src/Heartbeat/Runs.antt =====
-- What the runs of the periodic tasks do.
use usbip_ice.Base.{
  ℕ, Name, ◌≡◌, refl, ◌∙◌, Bool, true, false, Option, none, some, List, [], ◌∷◌, map, String, arith,
  ◌==◌, ◌&&◌, ◌||◌, if◌then◌else◌, Unique, Bool-cases, inl, inr,
}
use usbip_ice.Schema.{Worker, Db, find_worker, worker_names}
use usbip_ice.Schema.Keys.{IsValid, find_worker-contains}
use usbip_ice.Procedures.{heartbeat_worker}
use usbip_ice.Procedures.Beats.{HeartbeatOf, beat_if, heartbeat_worker_lem}
use usbip_ice.Reservations.Keeps.{handle_reservation_timeouts-none}
use usbip_ice.Access.{Url, settle, execute, proc, get_data}
use usbip_ice.Access.ControlDatabase
use usbip_ice.Control.{Server}
use usbip_ice.Heartbeat.{beat, heartbeat_workers, reservation_timeouts}

get_reservation_timeouts-none :
    (up : Bool) (now : ℕ) (db : Db)
    → ControlDatabase.get_reservation_timeouts up now db ≡ (none, db)
unfolding ControlDatabase.get_reservation_timeouts get_data execute
get_reservation_timeouts-none false now db = refl
get_reservation_timeouts-none true now db = rw (handle_reservation_timeouts-none now db) refl

module _ {C A : Type 0} (emit : ℕ → Bool) (dumps : Name → C → Option A)
    (event_named : String → C) where
  -- The task that ends overdue reservations does nothing at all, whatever is overdue: the tables,
  -- the events and the requests to workers stay as they were.
  pub reservation_timeouts-idle :
      (str : ℕ → Name) (up : Bool) (now : ℕ) (c : Server A)
      → reservation_timeouts emit dumps event_named str up now c ≡ c
  unfolding reservation_timeouts
  reservation_timeouts-idle str up now c = rw (get_reservation_timeouts-none up now c.db) refl

abbrev pub url_of : Worker → Url
url_of w = record { ip = w.host; port = w.server_port }

module _ (answers : Url → Bool) (now : ℕ) where
  pub touched : Name → List (Name × Url) → Bool
  touched n [] = false
  touched n ((name, url) ∷ ws) = (n == name && answers url) || touched n ws

  settle-heartbeat :
      (n name : Name) (db : Db) (r : Option (Unit × Db))
      → HeartbeatOf name now n db r
      → find_worker n (settle db r).1.workers ≡ beat_if now (n == name) (find_worker n db.workers)
  settle-heartbeat n name db none h = h
  settle-heartbeat n name db (some (_, db')) h = h

  find_worker-heartbeat :
      (n name : Name) (db : Db)
      → find_worker n (ControlDatabase.heartbeat true name now db).1.workers
        ≡ beat_if now (n == name) (find_worker n db.workers)
  unfolding ControlDatabase.heartbeat proc execute
  find_worker-heartbeat n name db =
      settle-heartbeat n name db (heartbeat_worker name now db) (heartbeat_worker_lem name now n db)

  beat_if-beat_if :
      (a b : Bool) (o : Option Worker) → beat_if now b (beat_if now a o) ≡ beat_if now (a || b) o
  beat_if-beat_if a b none = refl
  beat_if-beat_if a b (some w) = ground arith

  beat_if-false : (o : Option Worker) → o ≡ beat_if now false o
  beat_if-false none = refl
  beat_if-false (some w) = refl

  pub find_worker-beat :
      (n : Name) (ws : List (Name × Url)) (db : Db)
      → find_worker n (beat answers true now ws db).workers
        ≡ beat_if now (touched n ws) (find_worker n db.workers)
  unfolding beat touched
  find_worker-beat n [] db = beat_if-false _
  find_worker-beat n ((name, url) ∷ ws) db = elim (Bool-cases (answers url)) [
    | inr silent ↦ ground (arith, silent, find_worker-beat n ws db)
    | inl heard ↦ ground (
      arith,
      heard,
      find_worker-beat n ws (ControlDatabase.heartbeat true name now db).1,
      find_worker-heartbeat n name db,
      beat_if-beat_if (n == name) (touched n ws) (find_worker n db.workers),
    )
  ]

  pub touched-workers :
      (n : Name) (ws : List Worker)
      → Unique (worker_names ws)
      → touched n (map (λ (w : Worker). (w.worker_name, url_of w)) ws)
        ≡ (elim (find_worker n ws) [ none ↦ false | some w ↦ answers (url_of w) ])
  unfolding touched
  touched-workers n [] u = refl
  touched-workers n (w ∷ ws) u = ground (arith, touched-workers n ws u.1, find_worker-contains n ws)

  -- The worker after a heartbeat run.
  abbrev pub beaten : Worker → Worker
  beaten w = if answers (url_of w) then record w { last_heartbeat = now } else w

  -- With the tables' constraints met, a heartbeat run with the database reachable gives the current
  -- time as last heartbeat to exactly the workers that answer at their own address, and leaves
  -- every other worker as it was.
  pub heartbeat_workers-beaten :
      (db : Db)
      → IsValid db
      → (n : Name)
      → find_worker n (heartbeat_workers answers true now db).workers
        ≡ (elim (find_worker n db.workers) [ none ↦ none | some w ↦ some (beaten w) ])
  unfolding heartbeat_workers ControlDatabase.get_workers get_data execute
  heartbeat_workers-beaten db v n =
      find_worker-beat n (map (λ (w : Worker). (w.worker_name, url_of w)) db.workers) db
      ∙ ground (arith, touched-workers n db.workers v.worker_key)
