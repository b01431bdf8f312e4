-- ===== src/Logs/Delivery.antt =====
-- Which rows reach the control server's log.
use mathlib.Core.Path.{subst}
use usbip_ice.Base.{
  Name, ◌≡◌, refl, sym, ap, ◌∙◌, Bool, true, false, ◌&&◌, Option, some, List, [], ◌∷◌, ◌++◌, map,
  arith, is_empty, if◌then◌else◌, append-nil, append_assoc, map-append,
}
use usbip_ice.Requests.{
  Json, text, status, respond, typecheck, json_to_args, all_fit, fits, is_instance,
}
use usbip_ice.Endpoints.{serve}
use usbip_ice.Logs.{
  Row, RemoteLogger, log, Line, log_rows, log_handler, get_log, dumped, log_body, answered, send,
  Act, logged, sent, act, run,
}

abbrev pub line_of : Name → Row → Line
line_of client_name row = record {
  line_level = row.level;
  client = client_name;
  line_msg = text row.msg;
}

-- The rows that are logged, in order.
abbrev pub rows_of : List Act → List Row
rows_of [] = []
rows_of (logged row ∷ acts) = row ∷ rows_of acts
rows_of (sent reaches ∷ acts) = rows_of acts

-- Every request reaches the server.
abbrev pub all_reach : List Act → Bool
all_reach [] = true
all_reach (logged row ∷ acts) = all_reach acts
all_reach (sent reaches ∷ acts) = reaches && all_reach acts

abbrev pub new : RemoteLogger
new = record { local = []; backlog = [] }

module _ (letters : Name → Option (Json × Json)) (client : Name) where
  log_rows-dumped :
      (rows : List Row) (lines : List Line)
      → log_rows letters client (dumped rows) lines ≡ (true, lines ++ map (line_of client) rows)
  unfolding log_rows
  log_rows-dumped [] lines = rw append-nil refl
  log_rows-dumped (row ∷ rows) lines =
      log_rows-dumped rows (lines ++ line_of client row ∷ []) ∙ rw append_assoc refl

  -- A request that reaches the server is answered with 200.
  get_log-dumped :
      (backlog : List Row) (lines : List Line)
      → get_log letters true (some (log_body client backlog)) lines
        ≡ (status 200, lines ++ map (line_of client) backlog)
  unfolding get_log serve respond typecheck json_to_args all_fit fits is_instance log_handler
  get_log-dumped backlog lines = rw (log_rows-dumped backlog lines) refl

  answered-ok : (lines : List Line) (r : RemoteLogger) → answered (status 200, lines) r ≡ (r, lines)
  unfolding answered
  answered-ok lines r = refl

  send_lem :
      (r : RemoteLogger) (lines : List Line)
      → send letters true client (r, lines) ≡ (
          if is_empty r.backlog
          then (record r { backlog = [] }, lines)
          else answered
              (get_log letters true (some (log_body client r.backlog)) lines)
              (record r { backlog = [] }))
  unfolding send
  send_lem r lines = refl

  send-delivers :
      (r : RemoteLogger) (lines : List Line)
      → send letters true client (r, lines)
        ≡ (record r { backlog = [] }, lines ++ map (line_of client) r.backlog)
  send-delivers r lines =
      send_lem r lines
      ∙ ap
          (λ a.
            if is_empty r.backlog
            then (record r { backlog = [] }, lines)
            else answered a (record r { backlog = [] }))
          (get_log-dumped r.backlog lines)
      ∙ by_backlog r.backlog
    where
      by_backlog :
          (backlog : List Row)
          → (if is_empty backlog
              then (record r { backlog = [] }, lines)
              else answered
                  (status 200, lines ++ map (line_of client) backlog)
                  (record r { backlog = [] }))
            ≡ (record r { backlog = [] }, lines ++ map (line_of client) backlog)
      by_backlog [] = rw append-nil refl
      by_backlog (row ∷ backlog) = answered-ok _ _

  -- What a run leaves of what there was and of what is logged.
  abbrev Keeps : List Row → RemoteLogger → List Line → RemoteLogger × List Line → Type 0
  Keeps rows r lines (r', lines') =
      (r'.local ≡ r.local ++ rows)
      × (lines' ++ map (line_of client) r'.backlog
          ≡ (lines ++ map (line_of client) r.backlog) ++ map (line_of client) rows)

  run-Keeps :
      (acts : List Act) (r : RemoteLogger) (lines : List Line)
      → all_reach acts ≡ true
      → Keeps (rows_of acts) r lines (run letters client acts (r, lines))
  unfolding act log
  run-Keeps [] r lines h = (rw append-nil refl, rw append-nil refl)
  run-Keeps (logged row ∷ acts) r lines h =
      let (kept, told) = run-Keeps acts (log row r) lines h in
      (kept ∙ rw append_assoc refl, told ∙ rw map-append (simp append_assoc refl))
  run-Keeps (sent false ∷ acts) r lines h = ground (arith, h)
  run-Keeps (sent true ∷ acts) r lines h =
      let lines' = lines ++ map (line_of client) r.backlog in
      let (kept, told) = run-Keeps acts (record r { backlog = [] }) lines' h in
      subst (λ s. Keeps (rows_of acts) r lines (run letters client acts s))
        (sym (send-delivers r lines)) (kept, told ∙ rw append-nil refl)

  -- Every row is given to the wrapped logger, in order. If every request to the control server
  -- reaches it, then what its logger was given, followed by the rows that still wait, is exactly
  -- the rows that were logged, each once and in order, with their levels and the client's name.
  pub run-delivers :
      (acts : List Act)
      → all_reach acts ≡ true
      → let (r, lines) = run letters client acts (new, []) in
        (r.local ≡ rows_of acts)
        × (lines ++ map (line_of client) r.backlog ≡ map (line_of client) (rows_of acts))
  run-delivers acts h = run-Keeps acts new [] h
