-- ===== src/Base/Dict.antt =====
-- A Python `dict`, in insertion order, whose keys are only compared.
use mathlib.Core.Path.{◌≡◌, refl}
use mathlib.Core.Bool.{Bool, true, false, not, ◌&&◌, ◌||◌}
use mathlib.Core.Option.{Option, none, some}
use mathlib.Core.List.{List, [], ◌∷◌, map}
use native.Mathlib.Omega.{arith}
use usbip_ice.Base.Tests.{Name, ◌==◌, if◌then◌else◌}
use usbip_ice.Base.Lists.{contains, Unique}

abbrev pub Dict {ℓ} : Type ℓ → Type ℓ
Dict V = List (Name × V)

module _ {ℓ} {V : Type ℓ} where
  -- `d.get(k)`
  abbrev pub lookup : Name → Dict V → Option V
  lookup k [] = none
  lookup k ((j, v) ∷ d) = if k == j then some v else lookup k d

  -- `k in d`
  abbrev pub has_key : Name → Dict V → Bool
  has_key k d = elim (lookup k d) [ none ↦ false | some _ ↦ true ]

  -- `d[k] = v`
  abbrev pub insert : Name → V → Dict V → Dict V
  insert k v [] = (k, v) ∷ []
  insert k v (e ∷ d) = if k == e.0 then (k, v) ∷ d else e ∷ insert k v d

  -- `d.pop(k, None)`. A dict has a key once; each entry with the key goes.
  abbrev pub erase : Name → Dict V → Dict V
  erase k [] = []
  erase k (e ∷ d) = if k == e.0 then erase k d else e ∷ erase k d

  -- `list(d.keys())`
  abbrev pub keys : Dict V → List Name
  keys d = map (λ e. e.0) d

  pub lookup-insert :
      (j k : Name) (v : V) (d : Dict V)
      → lookup j (insert k v d) ≡ (if j == k then some v else lookup j d)
  lookup-insert j k v [] = refl
  lookup-insert j k v (e ∷ d) = ground (arith, lookup-insert j k v d)

  pub lookup-erase :
      (j k : Name) (d : Dict V) → lookup j (erase k d) ≡ (if j == k then none else lookup j d)
  lookup-erase j k [] = ground arith
  lookup-erase j k (e ∷ d) = ground (arith, lookup-erase j k d)

  pub has_key-keys : (k : Name) (d : Dict V) → has_key k d ≡ contains k (keys d)
  has_key-keys k [] = refl
  has_key-keys k (e ∷ d) = ground (arith, has_key-keys k d)

  pub has_key-insert :
      (k j : Name) (v : V) (d : Dict V) → has_key k (insert j v d) ≡ (k == j || has_key k d)
  has_key-insert k j v d = ground (arith, lookup-insert k j v d)

  pub has_key-erase :
      (k j : Name) (d : Dict V) → has_key k (erase j d) ≡ (not (k == j) && has_key k d)
  has_key-erase k j d = ground (arith, lookup-erase k j d)

  pub contains-keys-insert :
      (j k : Name) (v : V) (d : Dict V)
      → contains j (keys (insert k v d)) ≡ (j == k || contains j (keys d))
  contains-keys-insert j k v [] = refl
  contains-keys-insert j k v (e ∷ d) = ground (arith, contains-keys-insert j k v d)

  pub Unique-insert :
      (k : Name) (v : V) (d : Dict V) → Unique (keys d) → Unique (keys (insert k v d))
  Unique-insert k v [] u = ground arith
  Unique-insert k v (e ∷ d) u =
      ground (arith, Unique-insert k v d u.1, contains-keys-insert e.0 k v d)

  pub contains-keys-erase :
      (j k : Name) (d : Dict V)
      → contains j (keys (erase k d)) ≡ (not (j == k) && contains j (keys d))
  contains-keys-erase j k [] = ground arith
  contains-keys-erase j k (e ∷ d) = ground (arith, contains-keys-erase j k d)

  pub Unique-erase : (k : Name) (d : Dict V) → Unique (keys d) → Unique (keys (erase k d))
  Unique-erase k [] u = u
  Unique-erase k (e ∷ d) u = ground (arith, Unique-erase k d u.1, contains-keys-erase e.0 k d)
