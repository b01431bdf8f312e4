-- ===== src/Examples/Tables.antt =====
-- Calls of the database on small tables.
use usbip_ice.Base.{refl, Bool, true, false, List, [], ◌∷◌, arith}
use usbip_ice.Schema.{available, reserved, Db}
use usbip_ice.Schema.Keys.{IsValid, IsFree}
use usbip_ice.Procedures.{handle_worker_timeouts}
use usbip_ice.Procedures.Cascade.{TimesOut, handle_worker_timeouts-TimesOut}
use usbip_ice.Reservations.{owned, grants, end_reservations}
use usbip_ice.Reservations.Reserve.{Reserves, reserved_db, make_reservations-Reserves}
use usbip_ice.Reservations.Release.{Ends, end_reservations-Ends}
use usbip_ice.Access.History.{Call, apply, run, AllAdmissible, run-IsValid, run-IsFree}

-- Client 5 holds device 7. Worker 1 has been silent since 100.
abbrev pub tables : Db
tables = record {
  workers =
      record { worker_name = 1; host = 10; server_port = 8081; last_heartbeat = 100 }
      ∷ record { worker_name = 2; host = 20; server_port = 8082; last_heartbeat = 950 }
      ∷ [];
  devices =
      record { serial_id = 7; worker = 1; device_status = reserved }
      ∷ record { serial_id = 8; worker = 1; device_status = available }
      ∷ record { serial_id = 9; worker = 2; device_status = available }
      ∷ [];
  reservations = record { device = 7; client_name = 5; until = 900 } ∷ [];
}

abbrev pub calls : List (Bool × Call)
calls =
    (true, Call.update_status 9 available)
    ∷ (true, Call.reserve 1 6 1000)
    ∷ (false, Call.end_all 5)
    ∷ (true, Call.worker_timeouts 60 1000)
    ∷ (true, Call.end_chosen 6 (8 ∷ []))
    ∷ []

pub tables-IsValid : IsValid tables
tables-IsValid = record {
  worker_key = ground arith;
  device_key = ground arith;
  reservation_key = ground arith;
  device_worker = λ k h. ground (arith, h);
  reservation_device = λ k h. ground (arith, h);
}

tables-IsFree : IsFree tables
tables-IsFree s h = ground (arith, h)

calls-AllAdmissible : AllAdmissible calls tables
unfolding apply
calls-AllAdmissible = ((λ h. refl), (tt, (tt, (tt, (tt, tt)))))

make_reservations-Reserves_example :
    Reserves 1 6 1000 tables (grants 1 tables) (reserved_db 1 6 1000 tables)
make_reservations-Reserves_example =
    make_reservations-Reserves 1 6 1000 tables tables-IsValid tables-IsFree

end_reservations-Ends_example :
    Ends (owned 5 (7 ∷ 8 ∷ [])) tables (end_reservations 5 (7 ∷ 8 ∷ []) tables)
end_reservations-Ends_example = end_reservations-Ends 5 (7 ∷ 8 ∷ []) tables tables-IsValid

handle_worker_timeouts-TimesOut_example :
    TimesOut 60 1000 tables (handle_worker_timeouts 60 1000 tables)
handle_worker_timeouts-TimesOut_example =
    handle_worker_timeouts-TimesOut 60 1000 tables tables-IsValid

run-IsValid_example : IsValid (run calls tables)
run-IsValid_example = run-IsValid calls tables tables-IsValid

run-IsFree_example : IsFree (run calls tables)
run-IsFree_example = run-IsFree calls tables tables-IsValid tables-IsFree calls-AllAdmissible
