-- ===== src/Handlers/Order.antt =====
-- The order in which `handleEvent` looks for a method.
use usbip_ice.Base.{
  ℕ, zero, suc, Name, ◌+◌, ◌≤◌, ◌≡◌, refl, sym, ap, ◌∙◌, Option, none, some, arith,
}
use usbip_ice.Base.Dict.{Dict, lookup}
use usbip_ice.Requests.{Members}
use usbip_ice.Handlers.{
  Class, class, Bases, no_bases, base, JsonMethodCall, prepend, Registry, methods_of, search_method,
  handle_event, take_turn, call_found, size, size_bases,
}

module _ {A : Type 0} where
  -- The first of two results.
  abbrev pub or_else :
      Option (JsonMethodCall A) → Option (JsonMethodCall A) → Option (JsonMethodCall A)
  or_else none b = b
  or_else (some m) b = some m

  -- The method of a class, and else what the search over its bases found. A class with no methods
  -- of its own ends the search.
  abbrev pub own_or :
      Option (Dict (JsonMethodCall A))
      → Name
      → Option (JsonMethodCall A)
      → Option (JsonMethodCall A)
  own_or none event inherited = none
  own_or (some ms) event inherited = or_else (lookup event ms) inherited

-- The lookup by recursion over the hierarchy: a class before its bases, the bases from left to
-- right.
unfoldable mutual
  pub find_method : {A : Type 0} → Registry A → Name → Class → Option (JsonMethodCall A)
  find_method registered event (class name bases) =
      own_or (methods_of registered name) event (find_in registered event bases)

  pub find_in : {A : Type 0} → Registry A → Name → Bases → Option (JsonMethodCall A)
  find_in registered event no_bases = none
  find_in registered event (base c bs) =
      or_else (find_method registered event c) (find_in registered event bs)

module _ {A : Type 0} where
  or_else_assoc :
      (a b c : Option (JsonMethodCall A)) → or_else (or_else a b) c ≡ or_else a (or_else b c)
  or_else_assoc none b c = refl
  or_else_assoc (some m) b c = refl

  find_in-prepend :
      (registered : Registry A) (event : Name) (bs rest : Bases)
      → find_in registered event (prepend bs rest)
        ≡ or_else (find_in registered event bs) (find_in registered event rest)
  unfolding find_in
  find_in-prepend registered event no_bases rest = refl
  find_in-prepend registered event (base c bs) rest =
      ap (or_else (find_method registered event c)) (find_in-prepend registered event bs rest)
      ∙ sym (
          or_else_assoc (find_method registered event c) (find_in registered event bs)
            (find_in registered event rest))

size_bases-prepend :
    (bs rest : Bases) → size_bases (prepend bs rest) ≡ size_bases bs + size_bases rest
unfolding size_bases
size_bases-prepend no_bases rest = omega arith
size_bases-prepend (base c bs) rest = omega (arith, size_bases-prepend bs rest)

module _ {A : Type 0} where
  found_first :
      (o : Option (Dict (JsonMethodCall A))) (event : Name)
      (inherited rest : Option (JsonMethodCall A))
      → take_turn o event rest (or_else inherited rest) ≡ or_else (own_or o event inherited) rest
  found_first none event inherited rest = refl
  found_first (some ms) event inherited rest = ground arith

  search_method-find_in :
      (n : ℕ) (registered : Registry A) (event : Name) (classes : Bases)
      → size_bases classes ≤ n
      → search_method n registered event classes ≡ find_in registered event classes
  unfolding search_method find_in size_bases
  search_method-find_in zero registered event no_bases h = refl
  search_method-find_in zero registered event (base (class name bases) classes) h =
      absurd (omega (arith, h))
  search_method-find_in (suc n) registered event no_bases h = refl
  search_method-find_in (suc n) registered event (base (class name bases) classes) h =
      let skipped = search_method-find_in n registered event classes (omega (arith, h)) in
      let above =
        search_method-find_in n registered event (prepend bases classes)
          (omega (arith, h, size_bases-prepend bases classes)) in
      ap
        (λ o.
          take_turn (methods_of registered name) event o
            (search_method n registered event (prepend bases classes)))
        skipped
      ∙ ap (λ o. take_turn (methods_of registered name) event (find_in registered event classes) o)
          (above ∙ find_in-prepend registered event bases classes)
      ∙ found_first (methods_of registered name) event (find_in registered event bases)
          (find_in registered event classes)

  or_else-none : (o : Option (JsonMethodCall A)) → or_else o none ≡ o
  or_else-none none = refl
  or_else-none (some m) = refl

  -- With fuel for each class of the hierarchy, the loop of `handleEvent` finds the method that a
  -- recursive lookup finds, which goes through a class before its bases, from left to right, and
  -- takes nothing from the bases of a class that has no methods of its own; the handler then calls
  -- that method, and without one returns False.
  pub handle_event_lem :
      (n : ℕ) (registered : Registry A) (type_ : Class) (event : Name) (contents : Members)
      → size type_ ≤ n
      → handle_event n registered type_ event contents
        ≡ call_found (find_method registered event type_) contents
  unfolding handle_event find_in size_bases
  handle_event_lem n registered type_ event contents h =
      ap (λ o. call_found o contents)
        (search_method-find_in n registered event (base type_ no_bases) (omega (arith, h))
          ∙ or_else-none (find_method registered event type_))
