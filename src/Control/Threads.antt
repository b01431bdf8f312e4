-- ===== src/Control/Threads.antt =====
-- The threads of `Control.reserve` in src/usbipice/control/Control.py, over rows of any type,
-- since the socket handler of src/usbipice/worker/app.py has the same loop over serials. A
-- thread closes over the loop's variable, as `send_reserve` over `row`, so it sends what the
-- variable holds when the thread reads it. A thread's reads are taken as one step.
use usbip_ice.Base.{
  ℕ, zero, suc, ◌+◌, ◌≡◌, refl, ap, ◌∙◌, Option, none, some, List, [], ◌∷◌, ◌++◌, arith, length,
  length-append, append_assoc, append-nil, replicate,
}

pub record Loop (A : Type 0) : Type 0 where
  pub rest : List A
  pub row : Option A
  pub waiting : ℕ
  pub sent : List A

pub data Act : Type 0 where
  advance read : Act

module _ {A : Type 0} where
  -- The next turn of the loop assigns the row and starts a thread.
  pub next_row : List A → Loop A → Loop A
  next_row [] l = l
  next_row (r ∷ rs) l = record l { rest = rs; row = some r; waiting = suc l.waiting }

  -- A thread that has started reads the row and sends its request.
  pub send_reserve : ℕ → Option A → Loop A → Loop A
  send_reserve (suc k) (some r) l = record l { waiting = k; sent = l.sent ++ r ∷ [] }
  send_reserve _ _ l = l

  unfoldable pub step : Act → Loop A → Loop A
  unfolding next_row send_reserve
  step advance l = next_row l.rest l
  step read l = send_reserve l.waiting l.row l

  abbrev pub run : List Act → Loop A → Loop A
  run [] l = l
  run (a ∷ acts) l = run acts (step a l)

  abbrev pub start : List A → Loop A
  start rows = record { rest = rows; row = none; waiting = 0; sent = [] }

  -- Each thread reads before the next turn.
  abbrev pub prompt : List A → List Act
  prompt [] = []
  prompt (r ∷ rs) = advance ∷ read ∷ prompt rs

  -- No thread reads before the loop has ended.
  abbrev pub late : List A → List Act
  late rows = replicate (length rows) advance ++ replicate (length rows) read

  run-append : (xs ys : List Act) (l : Loop A) → run (xs ++ ys) l ≡ run ys (run xs l)
  run-append [] ys l = refl
  run-append (x ∷ xs) ys l = run-append xs ys (step x l)

  run-prompt :
      (rows : List A) (row : Option A) (sent : List A)
      → (run (prompt rows) (record { rest = rows; row = row; waiting = 0; sent = sent })).sent
        ≡ sent ++ rows
  unfolding step
  run-prompt [] row sent = rw append-nil refl
  run-prompt (r ∷ rs) row sent =
      run-prompt rs (some r) (sent ++ r ∷ []) ∙ append_assoc sent (r ∷ []) rs

  -- If each thread reads before the loop's next turn, every row gets its own request, in order.
  pub prompt-sends_each : (rows : List A) → (run (prompt rows) (start rows)).sent ≡ rows
  prompt-sends_each rows = run-prompt rows none []

  last_row : A → List A → A
  last_row r [] = r
  last_row r (x ∷ xs) = last_row x xs

  run-advance :
      (rows : List A) (r : A) (k : ℕ) (sent : List A)
      → run
          (replicate (length rows) advance)
          (record { rest = rows; row = some r; waiting = k; sent = sent })
        ≡ record { rest = []; row = some (last_row r rows); waiting = length rows + k; sent = sent }
  unfolding step last_row
  run-advance [] r k sent = ground arith
  run-advance (x ∷ xs) r k sent = run-advance xs x (suc k) sent ∙ ground arith

  last_row-last : (r : A) (rs : List A) (last : A) → last_row r (rs ++ last ∷ []) ≡ last
  unfolding last_row
  last_row-last r [] last = refl
  last_row-last r (x ∷ xs) last = last_row-last x xs last

  run-read :
      (n : ℕ) (r : A) (sent : List A)
      → (run (replicate n read) (record { rest = []; row = some r; waiting = n; sent = sent })).sent
        ≡ sent ++ replicate n r
  unfolding step
  run-read zero r sent = rw append-nil refl
  run-read (suc n) r sent =
      run-read n r (sent ++ r ∷ []) ∙ append_assoc sent (r ∷ []) (replicate n r)

  -- If no thread reads before the loop has ended, every request goes to the worker and the
  -- device of the last row, one for each row, and no other device gets any.
  pub late-sends_last :
      (rows : List A) (last : A)
      → (run (late (rows ++ last ∷ [])) (start (rows ++ last ∷ []))).sent
        ≡ replicate (length (rows ++ last ∷ [])) last
  unfolding step
  late-sends_last rows last =
      ap (λ l. l.sent) (run-append (replicate n advance) (replicate n read) (start all))
      ∙ ap (λ l. (run (replicate n read) l).sent) (turns rows)
      ∙ run-read n last []
    where
      all : List A
      all = rows ++ last ∷ []

      n : ℕ
      n = length all

      turns :
          (xs : List A)
          → run (replicate (length (xs ++ last ∷ [])) advance) (start (xs ++ last ∷ []))
            ≡ record { rest = []; row = some last; waiting = length (xs ++ last ∷ []); sent = [] }
      turns [] = refl
      turns (x ∷ xs) =
          run-advance (xs ++ last ∷ []) x 1 [] ∙ ground (arith, last_row-last x xs last)

  -- The requests made, the threads waiting and the turns left add up; a waiting thread has a row.
  record IsCounted (n : ℕ) (l : Loop A) : Type 0 where
    total : length l.sent + l.waiting + length l.rest ≡ n
    has_row : l.row ≡ none → l.waiting ≡ 0

  next_row-IsCounted :
      (n : ℕ) (rs : List A) (l : Loop A) → l.rest ≡ rs → IsCounted n l → IsCounted n (next_row rs l)
  unfolding next_row
  next_row-IsCounted n [] l e c = c
  next_row-IsCounted n (r ∷ rs) l e c = record {
    total = omega (arith, c.total, ap length e);
    has_row = λ h. cc;
  }

  send_reserve-IsCounted :
      (n k : ℕ) (row : Option A) (l : Loop A)
      → l.waiting ≡ k
      → l.row ≡ row
      → IsCounted n l
      → IsCounted n (send_reserve k row l)
  unfolding send_reserve
  send_reserve-IsCounted n zero row l e f c = c
  send_reserve-IsCounted n (suc k) none l e f c = c
  send_reserve-IsCounted n (suc k) (some r) l e f c = record {
    total = omega (arith, c.total, e, length-append l.sent (r ∷ []));
    has_row = λ h. cc;
  }

  run-IsCounted : (n : ℕ) (acts : List Act) (l : Loop A) → IsCounted n l → IsCounted n (run acts l)
  unfolding step
  run-IsCounted n [] l c = c
  run-IsCounted n (advance ∷ acts) l c =
      run-IsCounted n acts _ (next_row-IsCounted n l.rest l refl c)
  run-IsCounted n (read ∷ acts) l c =
      run-IsCounted n acts _ (send_reserve-IsCounted n l.waiting l.row l refl refl c)

  -- Whatever the order of turns and reads, once all turns are made and all threads are done there
  -- has been exactly one request for each row.
  pub run-sends_as_many :
      (rows : List A) (acts : List Act)
      → (run acts (start rows)).rest ≡ []
      → (run acts (start rows)).waiting ≡ 0
      → length (run acts (start rows)).sent ≡ length rows
  run-sends_as_many rows acts done idle =
      let counted =
        run-IsCounted (length rows) acts (start rows)
          (record { total = omega arith; has_row = λ h. refl }) in
      omega (arith, counted.total, idle, ap length done)
