-- ===== src/Evaluation/Answers.antt =====
-- What an evaluation gives back.
use usbip_ice.Base.{
  suc, Name, ◌≡◌, refl, sym, ap, ◌∙◌, true, false, not, ◌&&◌, Option, none, some, List, [], ◌∷◌,
  ◌++◌, map, filter, arith, ◌==◌, contains, Unique,
}
use usbip_ice.Base.Dict.{Dict, lookup, insert, keys, lookup-insert, has_key-keys}
use usbip_ice.Client.Waiting.{all_in, all_in-filter, all_in-nil}
use usbip_ice.Evaluation.{
  PulseCountClient, remove, or_same, add_paths, start, add_result, has_finished, path_key,
  zip_paths, values,
}

module _ {P : Type 0} where
  -- The answers of devices, in the order in which they come.
  abbrev pub add_results : List (Name × Dict P) → PulseCountClient P → PulseCountClient P
  add_results [] c = c
  add_results ((serial, value) ∷ answers) c = add_results answers (add_result serial value c)

option_eta {ℓ} :
    {A : Type ℓ} (o : Option A) → (elim o as (λ _. Option A) [ none ↦ none | some a ↦ some a ]) ≡ o
option_eta none = refl
option_eta (some a) = refl

lookup-add_paths :
    (j : Name) (files : List (Name × Name)) (m : Dict Name)
    → Unique (keys files)
    → lookup j (add_paths files m)
      ≡ (elim (lookup j files) [ none ↦ lookup j m | some path ↦ some path ])
lookup-add_paths j [] m u = refl
lookup-add_paths j ((iden, path) ∷ files) m u = ground (
  arith,
  lookup-add_paths j files (insert iden path m) u.1,
  lookup-insert j iden path m,
  has_key-keys j files,
)

abbrev pub paths_of : List (Name × Name) → List Name
paths_of files = map (λ f. f.1) files

contains-paths :
    (u p : Name) (files : List (Name × Name))
    → lookup u files ≡ some p
    → contains p (paths_of files) ≡ true
contains-paths u p [] h = cc
contains-paths u p ((iden, path) ∷ files) h = ground (arith, contains-paths u p files)

-- With a path for each identifier and different paths, only one identifier has the path.
lookup-injective :
    (u p j : Name) (files : List (Name × Name))
    → Unique (keys files)
    → Unique (paths_of files)
    → lookup u files ≡ some p
    → (path_key (lookup j files) == suc p) ≡ (j == u)
lookup-injective u p j [] k q h = cc
lookup-injective u p j ((iden, path) ∷ files) k q h = ground (
  arith,
  lookup-injective u p j files k.1 q.1,
  contains-paths u p files,
  contains-paths j path files,
  has_key-keys j files,
  has_key-keys u files,
)

filter_self : (x : Name) (l : List Name) → contains x l ≡ false → filter (λ k. not (k == x)) l ≡ l
filter_self x [] h = refl
filter_self x (y ∷ l) h = ground (arith, filter_self x l)

remove-filter :
    (x : Name) (l : List Name) → Unique l → or_same (remove x l) l ≡ filter (λ k. not (k == x)) l
remove-filter x [] u = refl
remove-filter x (y ∷ l) u = ground (arith, remove-filter x l u.1, filter_self x l)

contains-filter :
    (j x : Name) (l : List Name)
    → contains j (filter (λ k. not (k == x)) l) ≡ (not (j == x) && contains j l)
contains-filter j x [] = ground arith
contains-filter j x (y ∷ l) = ground (arith, contains-filter j x l)

Unique-filter : (x : Name) (l : List Name) → Unique l → Unique (filter (λ k. not (k == x)) l)
Unique-filter x [] u = u
Unique-filter x (y ∷ l) u = ground (arith, Unique-filter x l u.1, contains-filter y x l)

module _ {P : Type 0} where
  abbrev pub answered : List (Name × Dict P) → List Name
  answered answers = map (λ a. a.0) answers

  add_results-finish :
      (answers : List (Name × Dict P)) (c : PulseCountClient P)
      → Unique c.remaining_serials
      → has_finished (add_results answers c) ≡ all_in c.remaining_serials (answered answers)
  unfolding add_result
  add_results-finish [] c u = sym (all_in-nil c.remaining_serials)
  add_results-finish ((s, value) ∷ answers) c u =
      let same = remove-filter s c.remaining_serials u in
      add_results-finish answers (add_result s value c)
        (rw same (Unique-filter s c.remaining_serials u))
      ∙ rw same (all_in-filter s c.remaining_serials (answered answers))

  -- An evaluation on different serials ends exactly when each of them has answered, whatever else
  -- answers, and however often.
  pub add_results-finishes :
      (serials : List Name) (files : List (Name × Name)) (answers : List (Name × Dict P))
      (c : PulseCountClient P)
      → Unique serials
      → has_finished (add_results answers (start serials files c))
        ≡ all_in serials (answered answers)
  unfolding start
  add_results-finishes serials files answers c u =
      add_results-finish answers (start serials files c) u

  lookup-zip_paths :
      (u p : Name) (m : Dict Name) (value d : Dict P)
      → Unique (keys value)
      → ((j : Name) → (path_key (lookup j m) == suc p) ≡ (j == u))
      → lookup (suc p) (zip_paths m value d)
        ≡ (elim (lookup u value) [ none ↦ lookup (suc p) d | some n ↦ some n ])
  lookup-zip_paths u p m [] d k only = refl
  lookup-zip_paths u p m ((iden, n) ∷ value) d k only = ground (
    arith,
    lookup-zip_paths u p m value (insert (path_key (lookup iden m)) n d) k.1 only,
    lookup-insert (suc p) (path_key (lookup iden m)) n d,
    only iden,
    has_key-keys u value,
  )

  lookup-map :
      (m : Dict Name) (s : Name) (results : Dict (Dict P))
      → lookup s (map (λ e. (e.0, zip_paths m e.1 [])) results)
        ≡ (elim (lookup s results) [ none ↦ none | some value ↦ some (zip_paths m value []) ])
  lookup-map m s [] = refl
  lookup-map m s (e ∷ results) = ground (arith, lookup-map m s results)

  results_after :
      (s : Name) (answers : List (Name × Dict P)) (c : PulseCountClient P)
      → contains s (answered answers) ≡ false
      → lookup s (add_results answers c).results ≡ lookup s c.results
  unfolding add_result
  results_after s [] c h = refl
  results_after s ((t, value) ∷ answers) c h =
      ground
        (arith, results_after s answers (add_result t value c), lookup-insert s t value c.results)

  last_result :
      (s : Name) (value : Dict P) (before after : List (Name × Dict P)) (c : PulseCountClient P)
      → contains s (answered after) ≡ false
      → lookup s (add_results (before ++ (s, value) ∷ after) c).results ≡ some value
  unfolding add_result
  last_result s value [] after c h =
      results_after s after (add_result s value c) h
      ∙ ground (arith, lookup-insert s s value c.results)
  last_result s value ((t, other) ∷ before) after c h =
      last_result s value before after (add_result t other c) h

  same_map :
      (answers : List (Name × Dict P)) (c : PulseCountClient P)
      → (add_results answers c).uuid_map ≡ c.uuid_map
  unfolding add_result
  same_map [] c = refl
  same_map ((s, value) ∷ answers) c = same_map answers (add_result s value c)

  -- Let the paths be different and their identifiers too, and let a device's last answer have a
  -- count for each of its identifiers. Then `evaluate` returns for the device, under each path, the
  -- count that the device gave for that path's identifier.
  pub evaluate-counts :
      (serials : List Name) (files : List (Name × Name)) (before after : List (Name × Dict P))
      (s u p : Name) (value : Dict P) (c : PulseCountClient P)
      → Unique (keys files)
      → Unique (paths_of files)
      → Unique (keys value)
      → contains s (answered after) ≡ false
      → lookup u files ≡ some p
      → (d : Dict P) × (lookup s
            (values (add_results (before ++ (s, value) ∷ after) (start serials files c)))
          ≡ some d)
        × (lookup (path_key (some p)) d ≡ lookup u value)
  unfolding values start
  evaluate-counts serials files before after s u p value c k q v last h =
      let answers = before ++ (s, value) ∷ after in
      let c' = add_results answers (start serials files c) in
      let mapped = λ (j : Name).
        (ap (λ m. path_key (lookup j m) == suc p) (same_map answers (start serials files c))
          ∙ ap (λ o. path_key o == suc p)
              (lookup-add_paths j files [] k ∙ option_eta (lookup j files))
          ∙ lookup-injective u p j files k q h) in
      (
        zip_paths c'.uuid_map value [],
        lookup-map c'.uuid_map s c'.results
            ∙ ap
                (λ o. elim o as (λ _. Option (Dict P)) [
                  | none ↦ none
                  | some w ↦ some (zip_paths c'.uuid_map w [])
                ])
                (last_result s value before after (start serials files c) last),
        lookup-zip_paths u p c'.uuid_map value [] v mapped ∙ option_eta (lookup u value),
      )
