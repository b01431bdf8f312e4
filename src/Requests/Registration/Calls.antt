-- ===== src/Requests/Registration/Calls.antt =====
-- Which methods a request can call, once the classes are made.
use usbip_ice.Base.{
  Name, ◌≡◌, refl, ap, ◌∙◌, Bool, true, false, ◌||◌, Option, none, some, List, [], ◌∷◌, arith, ◌==◌,
  if◌then◌else◌, Bool-cases, inl, inr, contains,
}
use usbip_ice.Base.Dict.{Dict, lookup, insert, has_key, lookup-insert, has_key-insert}
use usbip_ice.Requests.{Members, EventMethod, call_method, handle_request}
use usbip_ice.Requests.Registration.{Decorated, methods_of, set_name, register_all}

module _ {A : Type 0} where
  -- A method is named like an event that is registered before it.
  abbrev pub clashes : List Name → List (Decorated A) → Bool
  clashes events [] = false
  clashes events (d ∷ ds) = contains d.name events || clashes (d.event ∷ events) ds

  -- The last method of an event, or the one from before
  abbrev pub last_method :
      Name → List (Decorated A) → Option (EventMethod A) → Option (EventMethod A)
  last_method event [] before = before
  last_method event (d ∷ ds) before =
      last_method event ds (if event == d.event then some d.event_method else before)

  -- What a class with these methods does to the registry.
  pub record Registers (owner : Name) (ds : List (Decorated A))
      (methods methods' : Dict (Dict (EventMethod A))) : Type 0 where
    pub own_methods :
        (event : Name)
        → lookup event (methods_of owner methods')
          ≡ last_method event ds (lookup event (methods_of owner methods))
    pub other_classes : (c : Name) → (c == owner) ≡ false → lookup c methods' ≡ lookup c methods

  module _ (owner : Name) (d : Decorated A) (methods : Dict (Dict (EventMethod A))) where
    registered : Dict (Dict (EventMethod A))
    registered = insert owner (insert d.event d.event_method (methods_of owner methods)) methods

    methods_of-registered :
        methods_of owner registered ≡ insert d.event d.event_method (methods_of owner methods)
    unfolding registered
    methods_of-registered = ground (
      arith,
      lookup-insert owner owner (insert d.event d.event_method (methods_of owner methods)) methods,
    )

    unregistered : (c : Name) → (c == owner) ≡ false → lookup c registered ≡ lookup c methods
    unfolding registered
    unregistered c h = ground (
      arith,
      lookup-insert c owner (insert d.event d.event_method (methods_of owner methods)) methods,
    )

    has_key-registered :
        (n : Name)
        → has_key n (methods_of owner registered)
          ≡ (n == d.event || has_key n (methods_of owner methods))
    has_key-registered n =
        ap (has_key n) methods_of-registered
        ∙ has_key-insert n d.event d.event_method (methods_of owner methods)

    set_name_lem :
        set_name owner d methods
        ≡ (if has_key d.name (methods_of owner methods) then none else some registered)
    unfolding set_name registered
    set_name_lem = refl

  Registers-cons :
      (owner : Name) (d : Decorated A) (ds : List (Decorated A))
      (methods methods' : Dict (Dict (EventMethod A)))
      → Registers owner ds (registered owner d methods) methods'
      → Registers owner (d ∷ ds) methods methods'
  Registers-cons owner d ds methods methods' r = record {
    own_methods = λ event.
        r.own_methods event
        ∙ ap (last_method event ds) (
            ap (lookup event) (methods_of-registered owner d methods)
            ∙ lookup-insert event d.event d.event_method (methods_of owner methods));
    other_classes = λ c h. r.other_classes c h ∙ unregistered owner d methods c h;
  }

  -- The registry, or an exception
  abbrev Outcome : Name → List (Decorated A) → Dict (Dict (EventMethod A)) → Bool → Type 0
  Outcome owner ds methods true = register_all owner ds methods ≡ none
  Outcome owner ds methods false =
      (methods' : Dict (Dict (EventMethod A))) × (register_all owner ds methods ≡ some methods')
      × Registers owner ds methods methods'

  register_all-cons :
      (owner : Name) (d : Decorated A) (ds : List (Decorated A))
      (methods : Dict (Dict (EventMethod A))) {methods' : Dict (Dict (EventMethod A))}
      → set_name owner d methods ≡ some methods'
      → register_all owner (d ∷ ds) methods ≡ register_all owner ds methods'
  unfolding register_all
  register_all-cons owner d ds methods e =
      ap
        (λ (next : Option (Dict (Dict (EventMethod A)))).
          elim next as (λ x. Option (Dict (Dict (EventMethod A)))) [
            | none ↦ none
            | some methods' ↦ register_all owner ds methods'
          ])
        e

  Outcome-cons :
      (owner : Name) (d : Decorated A) (ds : List (Decorated A))
      (methods : Dict (Dict (EventMethod A))) (b : Bool)
      → set_name owner d methods ≡ some (registered owner d methods)
      → Outcome owner ds (registered owner d methods) b
      → Outcome owner (d ∷ ds) methods b
  Outcome-cons owner d ds methods true e raises = register_all-cons owner d ds methods e ∙ raises
  Outcome-cons owner d ds methods false e (methods', f, r) = (
    methods',
    register_all-cons owner d ds methods e ∙ f,
    Registers-cons owner d ds methods methods' r,
  )

  register_all-Outcome :
      (owner : Name) (ds : List (Decorated A)) (methods : Dict (Dict (EventMethod A)))
      (events : List Name)
      → ((n : Name) → has_key n (methods_of owner methods) ≡ contains n events)
      → Outcome owner ds methods (clashes events ds)
  unfolding register_all
  register_all-Outcome owner [] methods events h =
      (methods, refl, record { own_methods = λ event. refl; other_classes = λ c ne. refl })
  register_all-Outcome owner (d ∷ ds) methods events h =
      elim (Bool-cases (contains d.name events)) [
        | inl e ↦ rw e (ground (arith, set_name_lem owner d methods, h d.name, e))
        | inr e ↦ rw e (
            Outcome-cons owner d ds methods (clashes (d.event ∷ events) ds)
              (ground (arith, set_name_lem owner d methods, h d.name, e))
              (register_all-Outcome owner ds (registered owner d methods) (d.event ∷ events)
                (λ n. has_key-registered owner d methods n ∙ ap (λ b. n == d.event || b) (h n))))
      ]

  handle_request-methods_of :
      (methods : Dict (Dict (EventMethod A))) (type_ event : Name) (contents : Members)
      → handle_request methods type_ event contents
        ≡ (elim (lookup event (methods_of type_ methods)) [
          | none ↦ none
          | some m ↦ call_method m contents
        ])
  unfolding handle_request
  handle_request-methods_of methods type_ event contents = grind arith

  called :
      (owner : Name) (ds : List (Decorated A)) (methods methods' : Dict (Dict (EventMethod A)))
      → methods_of owner methods ≡ []
      → Registers owner ds methods methods'
      → (c event : Name) (contents : Members)
      → handle_request methods' c event contents ≡ (
          if c == owner
          then elim (last_method event ds none) [ none ↦ none | some m ↦ call_method m contents ]
          else handle_request methods c event contents)
  called owner ds methods methods' fresh r c event contents = ground (
    arith,
    handle_request-methods_of methods' c event contents,
    handle_request-methods_of methods c event contents,
    r.own_methods event,
    r.other_classes c,
    fresh,
  )

  -- The registry of a class, or an exception
  abbrev pub Calls : Name → List (Decorated A) → Dict (Dict (EventMethod A)) → Bool → Type 0
  Calls owner ds methods true = register_all owner ds methods ≡ none
  Calls owner ds methods false =
      (methods' : Dict (Dict (EventMethod A))) × (register_all owner ds methods ≡ some methods')
      × ((c event : Name) (contents : Members)
          → handle_request methods' c event contents ≡ (
              if c == owner
              then elim (last_method event ds none) [
                | none ↦ none
                | some m ↦ call_method m contents
              ]
              else handle_request methods c event contents))

  -- What a class of states with decorated methods makes of the registry, where the class has no
  -- entry yet. If a method has the name of an event that is registered before it, then an exception
  -- is raised. Otherwise none is, and for an object of the class a request of an event calls the
  -- last method that is decorated with that event, with the checks of its arguments, and nothing if
  -- there is none; objects of the other classes answer requests as before.
  pub register_all-Calls :
      (owner : Name) (ds : List (Decorated A)) (methods : Dict (Dict (EventMethod A)))
      → lookup owner methods ≡ none
      → Calls owner ds methods (clashes [] ds)
  register_all-Calls owner ds methods fresh =
      let none_yet : methods_of owner methods ≡ [] = ground (arith, fresh) in
      conclude none_yet (clashes [] ds)
        (register_all-Outcome owner ds methods [] (λ n. ap (has_key n) none_yet))
    where
      conclude :
          methods_of owner methods ≡ []
          → (b : Bool) → Outcome owner ds methods b
          → Calls owner ds methods b
      conclude none_yet true raises = raises
      conclude none_yet false (methods', e, r) =
          (methods', e, called owner ds methods methods' none_yet r)
