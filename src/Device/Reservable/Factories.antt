-- ===== src/Device/Reservable/Factories.antt =====
-- Which state a reservation makes.
use usbip_ice.Base.{
  Name, ◌≡◌, refl, ap, ◌∙◌, false, Option, none, some, List, [], ◌∷◌, map, arith, ◌==◌,
  if◌then◌else◌, contains, Unique, ==_iff, Bool-cases, inl, inr,
}
use usbip_ice.Base.Dict.{lookup, has_key, insert, lookup-insert, has_key-insert}
use usbip_ice.Requests.{Members, get}
use usbip_ice.Device.Reservable.{
  Registry, check_state, make_state_fac, reservable, get_reservation_state_fac, Decorator,
  register_all, no_states,
}

module _ {S : Type 0} where
  abbrev pub names : List (Decorator S) → List Name
  names ds = map (λ (d : Decorator S). d.name) ds

  -- The decorator of the name.
  abbrev pub find : Name → List (Decorator S) → Option (Decorator S)
  find kind [] = none
  find kind (d ∷ ds) = if kind == d.name then some d else find kind ds

  abbrev added : Decorator S → Registry S → Registry S
  added d r = record {
    constructors = insert d.name (make_state_fac d.args d.cls) r.constructors;
    checkers = insert d.name (check_state d.args) r.checkers;
  }

  -- None of the names is registered yet.
  abbrev AreNew : List (Decorator S) → Registry S → Type 0
  AreNew [] r = Unit
  AreNew (d ∷ ds) r = (has_key d.name r.constructors ≡ false) × AreNew ds r

  added-AreNew :
      (d : Decorator S) (ds : List (Decorator S)) (r : Registry S)
      → contains d.name (names ds) ≡ false
      → AreNew ds r
      → AreNew ds (added d r)
  added-AreNew d [] r h n = tt
  added-AreNew d (e ∷ ds) r h n = (
    has_key-insert e.name d.name (make_state_fac d.args d.cls) r.constructors
        ∙ ground (arith, h, n.0),
    added-AreNew d ds r (ground (arith, h)) n.1,
  )

  find-contains :
      (kind : Name) (ds : List (Decorator S))
      → contains kind (names ds) ≡ false
      → find kind ds ≡ none
  find-contains kind [] h = refl
  find-contains kind (d ∷ ds) h = ground (arith, h, find-contains kind ds)

  abbrev maker : Option (Decorator S) → Option (Members → S) → Option (Members → S)
  maker none o = o
  maker (some d) o = some (make_state_fac d.args d.cls)

  maker-added :
      (kind : Name) (d : Decorator S) (ds : List (Decorator S)) (r : Registry S)
      → contains d.name (names ds) ≡ false
      → maker (find kind ds) (lookup kind (added d r).constructors)
        ≡ maker (find kind (d ∷ ds)) (lookup kind r.constructors)
  maker-added kind d ds r h = elim (Bool-cases (kind == d.name)) [
    | inl e ↦
        rw
          (
            lookup-insert kind d.name (make_state_fac d.args d.cls) r.constructors,
            e,
            find-contains kind ds (ap (λ k. contains k (names ds)) ((==_iff kind d.name).0 e) ∙ h),
          )
          refl
    | inr e ↦ rw (lookup-insert kind d.name (make_state_fac d.args d.cls) r.constructors, e) refl
  ]

  reservable-added :
      (d : Decorator S) (r : Registry S)
      → has_key d.name r.constructors ≡ false
      → reservable d.name d.args d.cls r ≡ some (added d r)
  unfolding reservable
  reservable-added d r h = rw h refl

  register_all-finds :
      (ds : List (Decorator S)) (r : Registry S)
      → Unique (names ds)
      → AreNew ds r
      → (r' : Registry S) × (register_all ds r ≡ some r')
        × ((kind : Name)
            → lookup kind r'.constructors ≡ maker (find kind ds) (lookup kind r.constructors))
  register_all-finds [] r u n = (r, refl, λ kind. refl)
  register_all-finds (d ∷ ds) r u n =
      let (r', e, h) = register_all-finds ds (added d r) u.1 (added-AreNew d ds r u.0 n.1) in
      (
        r',
        rw (register_all, reservable-added d r n.0) e,
        λ kind. h kind ∙ maker-added kind d ds r u.0,
      )

  all_new : (ds : List (Decorator S)) → AreNew ds no_states
  all_new [] = tt
  all_new (d ∷ ds) = (refl, all_new ds)

  -- Where the decorators' names are different, all of them are registered without an exception,
  -- and a reservation of a kind makes a state of the class that is decorated with that name, of
  -- the values of its keys in order, whatever the request has, with `null` for a missing one.
  -- For any other kind there is no state.
  pub get_reservation_state_fac_lem :
      (ds : List (Decorator S))
      → Unique (names ds)
      → (r : Registry S) × (register_all ds no_states ≡ some r)
        × ((kind : Name) (event : Members)
            → get_reservation_state_fac r kind event ≡ (elim (find kind ds) [
              | none ↦ none
              | some d ↦ some (d.cls (map (get event) d.args))
            ]))
  unfolding get_reservation_state_fac make_state_fac
  get_reservation_state_fac_lem ds u =
      let (r, e, h) = register_all-finds ds no_states u (all_new ds) in
      (r, e, λ kind event. rw (get_reservation_state_fac, h kind) (made event (find kind ds)))
    where
      made :
          (event : Members) (o : Option (Decorator S))
          → (elim (maker o none) as (λ _. Option S) [ none ↦ none | some fn ↦ some (fn event) ])
            ≡ (elim o as (λ _. Option S) [
              | none ↦ none
              | some d ↦ some (d.cls (map (get event) d.args))
            ])
      made event none = refl
      made event (some d) = refl
