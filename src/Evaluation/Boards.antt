-- ===== src/Evaluation/Boards.antt =====
-- An evaluation from the client through a worker's board and back: the client's
-- src/usbipice/client/drivers/pulse_count/PulseCountClient.py, and the loop of
-- src/usbipice/worker/device/state/reservable/PulseCountState.py.
use usbip_ice.Base.{
  ℕ, suc, Name, ◌≤◌, ◌≡◌, refl, ap, ◌∙◌, ==_iff, Bool, true, false, some, List, [], ◌∷◌, ◌++◌,
  arith, if◌then◌else◌, contains, length, Unique,
}
use usbip_ice.Base.Dict.{Dict, lookup, insert, keys, lookup-insert, Unique-insert, has_key-keys}
use usbip_ice.Pulses.{
  Pulse, pulses, timeout, Evaluator, queue, pop, finish, record_pulse, evaluate, request, turn, act,
}
use usbip_ice.Pulses.Results.{contains-pop, length-pop}
use usbip_ice.Evaluation.{PulseCountClient, start, path_key, values}
use usbip_ice.Evaluation.Answers.{add_results, answered, paths_of, evaluate-counts}

-- What the board does with the bitstream that the loop takes: it counts `f` of it, or times out.
abbrev pub pulse_of : (Name → Name) → Bool → List Name → Pulse
pulse_of f true (b ∷ l) = pulses (f (pop b l).0)
pulse_of f _ _ = timeout

abbrev pub measure : (Name → Name) → List Bool → Evaluator → Evaluator
measure f [] e = e
measure f (counts ∷ oks) e = measure f oks (act (turn (pulse_of f counts e.bitstream_queue)) e)

abbrev pub successes : List Bool → ℕ
successes [] = 0
successes (true ∷ oks) = suc (successes oks)
successes (false ∷ oks) = successes oks

abbrev pub idle : Evaluator
idle = record { bitstream_queue = []; results = []; sent = [] }

abbrev working : List Name → Dict Name → Evaluator
working q results = record { bitstream_queue = q; results = results; sent = [] }

-- Everything is done, and one set of results was sent.
abbrev pub over : Dict Name → Evaluator
over d = record { bitstream_queue = []; results = []; sent = d ∷ [] }

pop-append : (b : Name) (l : List Name) → (pop b l).1 ++ (pop b l).0 ∷ [] ≡ b ∷ l
pop-append b [] = refl
pop-append b (c ∷ l) = ap (λ m. b ∷ m) (pop-append c l)

measure-over : (f : Name → Name) (oks : List Bool) (d : Dict Name) → measure f oks (over d) ≡ over d
unfolding act evaluate
measure-over f [] d = refl
measure-over f (counts ∷ oks) d = measure-over f oks d

-- What the results hold once the queue is done.
abbrev Holds : (Name → Name) → List Name → Dict Name → Dict Name → Type 0
Holds f q results d =
    ((k : Name) → lookup k d ≡ (if contains k q then some (f k) else lookup k results))
    × Unique (keys d)

last-Holds :
    (f : Name → Name) (b : Name) (l : List Name) (results d : Dict Name)
    → Holds f (pop b l).1 (insert (pop b l).0 (f (pop b l).0) results) d
    → Holds f (b ∷ l) results d
last-Holds f b l results d (h, u) = (
  λ k. ground (
    arith,
    h k,
    contains-pop k b l,
    lookup-insert k (pop b l).0 (f (pop b l).0) results,
    ==_iff k (pop b l).0,
  ),
  u,
)

-- A turn that times out takes the bitstream again.
timeout-same :
    (b : Name) (l : List Name) (results : Dict Name)
    → act (turn timeout) (working (b ∷ l) results) ≡ working (b ∷ l) results
unfolding act evaluate record_pulse
timeout-same b l results = ap (λ q. working q results) (pop-append b l)

-- A turn that counts.
count-turn :
    (f : Name → Name) (b : Name) (l rest : List Name) (results : Dict Name)
    → (pop b l).1 ≡ rest
    → act (turn (pulse_of f true (b ∷ l))) (working (b ∷ l) results)
      ≡ finish (working rest (insert (pop b l).0 (f (pop b l).0) results))
unfolding act evaluate record_pulse
count-turn f b l rest results h =
    ap (λ q. finish (working q (insert (pop b l).0 (f (pop b l).0) results))) h

-- What is left of a run: it ends with one set of results, which has the board's counts.
abbrev Measures : (Name → Name) → List Bool → List Name → Dict Name → Type 0
Measures f oks q results =
    (d : Dict Name) × (measure f oks (working q results) ≡ over d) × Holds f q results d

-- A turn that counts, given that the turns after it do what they should.
count-Measures :
    (f : Name → Name) (oks : List Bool) (b : Name) (l rest : List Name) (results : Dict Name)
    → (pop b l).1 ≡ rest
    → Unique (keys results)
    → ((c : Name) (m : List Name) (r : Dict Name)
        → length (c ∷ m) ≤ length l
        → Unique (keys r)
        → Measures f oks (c ∷ m) r)
    → Measures f (true ∷ oks) (b ∷ l) results
unfolding finish
count-Measures f oks b l [] results e u later =
    let results' = insert (pop b l).0 (f (pop b l).0) results in
    let unique = Unique-insert (pop b l).0 (f (pop b l).0) results u in
    (
      results',
      ap (measure f oks) (count-turn f b l [] results e) ∙ measure-over f oks results',
      last-Holds f b l results results' ((λ k. rw e refl), unique),
    )
count-Measures f oks b l (c ∷ rest) results e u later =
    let results' = insert (pop b l).0 (f (pop b l).0) results in
    let unique = Unique-insert (pop b l).0 (f (pop b l).0) results u in
    let (d, same, g) = later c rest results' (omega (arith, length-pop b l, ap length e)) unique in
    (
      d,
      ap (measure f oks) (count-turn f b l (c ∷ rest) results e) ∙ same,
      last-Holds f b l results d (rw e g),
    )

measure-Measures :
    (f : Name → Name) (oks : List Bool) (b : Name) (l : List Name) (results : Dict Name)
    → suc (length l) ≤ successes oks
    → Unique (keys results)
    → Measures f oks (b ∷ l) results
measure-Measures f [] b l results h u = absurd (omega (arith, h))
measure-Measures f (false ∷ oks) b l results h u =
    let (d, e, g) = measure-Measures f oks b l results h u in
    (d, ap (measure f oks) (timeout-same b l results) ∙ e, g)
measure-Measures f (true ∷ oks) b l results h u =
    count-Measures f oks b l (pop b l).1 results refl u
      (λ c m r le v. measure-Measures f oks c m r (omega (arith, h, le)) v)

-- Let the files have different paths and identifiers, let the device's queue be empty with no
-- results waiting, and let the board time out however often, but count at least as often as
-- there are files. Then the worker sends its results exactly once; and if these are the device's
-- last answer, then `evaluate` returns for the device, under each path, what the board counts
-- for that path's file.
pub evaluate-measures :
    (f : Name → Name) (oks : List Bool) (serials : List Name) (file : Name × Name)
    (files : List (Name × Name)) (s u p : Name) (before after : List (Name × Dict Name))
    (c : PulseCountClient Name)
    → let idens = keys (file ∷ files) in
      Unique idens
      → Unique (paths_of (file ∷ files))
      → length idens ≤ successes oks
      → contains s (answered after) ≡ false
      → lookup u (file ∷ files) ≡ some p
      → (d r : Dict Name) × (measure f oks (act (request idens) idle) ≡ over d)
        × (lookup s
              (values (add_results (before ++ (s, d) ∷ after) (start serials (file ∷ files) c)))
            ≡ some r)
        × (lookup (path_key (some p)) r ≡ some (f u))
unfolding act queue
evaluate-measures f oks serials file files s u p before after c k q enough last h =
    let (d, e, (holds, unique)) = measure-Measures f oks file.0 (keys files) [] enough tt in
    let (r, returned, counted) =
      evaluate-counts serials (file ∷ files) before after s u p d c k q unique last h in
    (d, r, e, returned, counted ∙ ground (arith, holds u, has_key-keys u (file ∷ files), h))
