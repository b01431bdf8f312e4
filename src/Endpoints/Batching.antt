-- ===== src/Endpoints/Batching.antt =====
-- What a worker does with the request of a batch.
use usbip_ice.Base.{
  ℕ, zero, suc, length-map, sym, Name, ◌≡◌, refl, ap, ◌∙◌, true, false, some, List, [], ◌∷◌, ◌++◌,
  map, ◌==◌, length, replicate,
}
use usbip_ice.Base.Dict.{Dict}
use usbip_ice.Control.Threads.{Act, prompt, late, prompt-sends_each, late-sends_last}
use usbip_ice.Requests.{is_true, Json, text, array, object, Members, EventMethod, forward_request}
use usbip_ice.Endpoints.ControlApp.{texts}
use usbip_ice.Endpoints.Socket.{
  read_packet, handle, batch, batch_body, list_of, forward, unbind_body, request_body,
}

abbrev pub jsons : List Name → List Json
jsons l = map text l

list_of-texts : (l : List Name) → list_of (texts l) ≡ jsons l
list_of-texts [] = refl
list_of-texts (s ∷ l) = ap (λ m. text s ∷ m) (list_of-texts l)

jsons-append : (l m : List Name) → jsons (l ++ m) ≡ jsons l ++ jsons m
jsons-append [] m = refl
jsons-append (s ∷ l) m = ap (λ j. text s ∷ j) (jsons-append l m)

has_last : (l : List Name) (last : Name) → is_true (array (texts (l ++ last ∷ []))) ≡ true
has_last [] last = refl
has_last (s ∷ l) last = refl

read_batch :
    (client event last : Name) (l : List Name) (contents : Members)
    → (client == 0) ≡ false
    → (event == 0) ≡ false
    → is_true (object contents) ≡ true
    → read_packet (some client) (some (batch_body (texts (l ++ last ∷ [])) event contents))
      ≡ batch (jsons (l ++ last ∷ [])) (text event) (object contents)
unfolding read_packet
read_batch client event last l contents hc he hn =
    rw (has_last l last, hc, he, hn) (rw (list_of-texts (l ++ last ∷ [])) refl)

module _ {A : Type 0} (methods : Dict (Dict (EventMethod A))) (devs : Dict Name) where
  forward-each :
      (serials : List Name) (event : Name) (contents : Members)
      → map (λ s. forward methods devs s (text event) (object contents)) (jsons serials)
        ≡ map (λ s. forward_request methods devs s event contents) serials
  forward-each [] event contents = refl
  forward-each (s ∷ serials) event contents =
      ap (λ l. forward_request methods devs s event contents ∷ l)
        (forward-each serials event contents)

  forward-replicate :
      (n : ℕ) (s event : Name) (contents : Members)
      → map (λ k. forward methods devs k (text event) (object contents)) (replicate n (text s))
        ≡ replicate n (forward_request methods devs s event contents)
  forward-replicate zero s event contents = refl
  forward-replicate (suc n) s event contents =
      ap (λ l. forward_request methods devs s event contents ∷ l)
        (forward-replicate n s event contents)

  -- A known client's batch for some serials, with a text for the event and contents that are not
  -- empty, is handled as follows. If each thread reads the loop's variable before the next turn,
  -- the worker forwards one request to each serial, in order; if no thread reads it before the
  -- loop has ended, it forwards as many requests, all of them to the last serial.
  pub handle-batch :
      (client event last : Name) (before : List Name) (contents : Members)
      → (client == 0) ≡ false
      → (event == 0) ≡ false
      → is_true (object contents) ≡ true
      → let serials = before ++ last ∷ [] in
        let data_ = some (batch_body (texts serials) event contents) in
        (handle methods devs (prompt (jsons serials)) (some client) data_
          ≡ map (λ s. forward_request methods devs s event contents) serials)
        × (handle methods devs (late (jsons serials)) (some client) data_
            ≡ replicate (length serials) (forward_request methods devs last event contents))
  unfolding handle
  handle-batch client event last before contents hc he hn =
      let serials = before ++ last ∷ [] in
      let read = read_batch client event last before contents hc he hn in
      (
        rw read (rw (prompt-sends_each (jsons serials)) (forward-each serials event contents)),
        rw read (
            rw
              (
                jsons-append before (last ∷ []),
                late-sends_last (jsons before) (text last),
                forward-replicate (length (jsons before ++ text last ∷ [])) last event contents,
              )
              (ap (λ n. replicate n (forward_request methods devs last event contents))
                (ap length (sym (jsons-append before (last ∷ []))) ∙ length-map text serials))),
      )

  -- The request of `UsbipBaseClient.unbind`, from a known client and for a serial that is not
  -- empty, calls no method of any device, whichever are registered: its contents are empty, and
  -- such a packet is dropped. A request of that client for the serial with other contents, and
  -- with a text for the event, is forwarded.
  pub unbind-dropped :
      (acts : List Act) (client serial event : Name) (contents : Members)
      → (client == 0) ≡ false
      → (serial == 0) ≡ false
      → (event == 0) ≡ false
      → is_true (object contents) ≡ true
      → (handle methods devs acts (some client) (some (unbind_body serial)) ≡ [])
        × (handle methods devs acts (some client) (some (request_body serial event contents))
            ≡ forward_request methods devs serial event contents ∷ [])
  unfolding handle read_packet
  unbind-dropped acts client serial event contents hc hs he hn =
      (rw (hc, hs) refl, rw (hc, hs, he, hn) refl)
