-- ===== src/Requests/Types/Handlers.antt =====
-- Handlers as functions of typed arguments.
use usbip_ice.Base.{
  Name, ◌≡◌, refl, ap, ◌∙◌, Bool, true, false, Option, none, some, List, [], ◌∷◌, map, arith, ◌⊎◌,
  inl, inr, if◌then◌else◌,
}
use usbip_ice.Requests.{
  Json, null, boolean, integer, text, array, object, Items, nil, cons, Members, get, Class,
  Annotation, empty, class, list_of, dict_of, other, is_instance, all_instances, fits, Result,
  status, reply, respond,
}
use usbip_ice.Requests.Checks.{admits, respond_lem}
use usbip_ice.Requests.Types.{
  to_json, from_json, to_items, from_items, from_arg, to_arg, Arguments, to_args, from_members,
  has_no_dict_of,
}

-- A value is read exactly if a check accepts it, and then it is written back the same.
abbrev Reads : {A B : Type 0} → Option A → Bool → (A → B) → B → Type 0
Reads {A} read check write v =
    ((read ≡ none) × (check ≡ false)) ⊎ ((x : A) × (read ≡ some x) × (check ≡ true) × (write x ≡ v))

from_json-Reads : (c : Class) (v : Json) → Reads (from_json c v) (is_instance c v) (to_json c) v
unfolding is_instance
from_json-Reads Class.bool null = inl (refl, refl)
from_json-Reads Class.bool (boolean b) = inr (b, refl, refl, refl)
from_json-Reads Class.bool (integer n) = inl (refl, refl)
from_json-Reads Class.bool (text s) = inl (refl, refl)
from_json-Reads Class.bool (array l) = inl (refl, refl)
from_json-Reads Class.bool (object m) = inl (refl, refl)
from_json-Reads Class.int null = inl (refl, refl)
from_json-Reads Class.int (boolean b) = inr (inl b, refl, refl, refl)
from_json-Reads Class.int (integer n) = inr (inr n, refl, refl, refl)
from_json-Reads Class.int (text s) = inl (refl, refl)
from_json-Reads Class.int (array l) = inl (refl, refl)
from_json-Reads Class.int (object m) = inl (refl, refl)
from_json-Reads Class.str null = inl (refl, refl)
from_json-Reads Class.str (boolean b) = inl (refl, refl)
from_json-Reads Class.str (integer n) = inl (refl, refl)
from_json-Reads Class.str (text s) = inr (s, refl, refl, refl)
from_json-Reads Class.str (array l) = inl (refl, refl)
from_json-Reads Class.str (object m) = inl (refl, refl)
from_json-Reads Class.list null = inl (refl, refl)
from_json-Reads Class.list (boolean b) = inl (refl, refl)
from_json-Reads Class.list (integer n) = inl (refl, refl)
from_json-Reads Class.list (text s) = inl (refl, refl)
from_json-Reads Class.list (array l) = inr (l, refl, refl, refl)
from_json-Reads Class.list (object m) = inl (refl, refl)
from_json-Reads Class.dict null = inl (refl, refl)
from_json-Reads Class.dict (boolean b) = inl (refl, refl)
from_json-Reads Class.dict (integer n) = inl (refl, refl)
from_json-Reads Class.dict (text s) = inl (refl, refl)
from_json-Reads Class.dict (array l) = inl (refl, refl)
from_json-Reads Class.dict (object m) = inr (m, refl, refl, refl)

from_items-Reads :
    (c : Class) (l : Items) → Reads (from_items c l) (all_instances c l) (to_items c) l
unfolding all_instances
from_items-Reads c nil = inr ([], refl, refl, refl)
from_items-Reads c (cons v l) = both (from_json-Reads c v) (from_items-Reads c l)
  where
    both :
        Reads (from_json c v) (is_instance c v) (to_json c) v
        → Reads (from_items c l) (all_instances c l) (to_items c) l
        → Reads (from_items c (cons v l)) (all_instances c (cons v l)) (to_items c) (cons v l)
    both (inl (e, f)) later = inl (ground (arith, e), ground (arith, f))
    both (inr (x, e, f, g)) (inl (e', f')) = inl (ground (arith, e, e'), ground (arith, f, f'))
    both (inr (x, e, f, g)) (inr (xs, e', f', g')) =
        inr (x ∷ xs, ground (arith, e, e'), ground (arith, f, f'), cc)

from_arg-Reads :
    (a : Annotation) (v : Json)
    → has_no_dict_of ((0, a) ∷ []) ≡ true
    → Reads (from_arg a v) (fits a v) (to_arg a) v
unfolding fits
from_arg-Reads empty v h = inr (v, refl, refl, refl)
from_arg-Reads (class c) v h = from_json-Reads c v
from_arg-Reads (list_of c) (array l) h = in_array (from_items-Reads c l)
  where
    in_array :
        Reads (from_items c l) (all_instances c l) (to_items c) l
        → Reads
            (from_arg (list_of c) (array l))
            (fits (list_of c) (array l))
            (to_arg (list_of c))
            (array l)
    in_array (inl p) = inl p
    in_array (inr (xs, e, f, g)) = inr (xs, e, f, ap array g)
from_arg-Reads (list_of c) null h = inl (refl, refl)
from_arg-Reads (list_of c) (boolean b) h = inl (refl, refl)
from_arg-Reads (list_of c) (integer n) h = inl (refl, refl)
from_arg-Reads (list_of c) (text s) h = inl (refl, refl)
from_arg-Reads (list_of c) (object m) h = inl (refl, refl)
from_arg-Reads dict_of v h = cc
from_arg-Reads other v h = inl (refl, refl)

has_no_dict_of-head :
    (key : Name) (a : Annotation) (params : List (Name × Annotation))
    → has_no_dict_of ((key, a) ∷ params) ≡ true
    → has_no_dict_of ((0, a) ∷ []) ≡ true
has_no_dict_of-head key empty params h = refl
has_no_dict_of-head key (class c) params h = refl
has_no_dict_of-head key (list_of c) params h = refl
has_no_dict_of-head key dict_of params h = h
has_no_dict_of-head key other params h = refl

has_no_dict_of-tail :
    (key : Name) (a : Annotation) (params : List (Name × Annotation))
    → has_no_dict_of ((key, a) ∷ params) ≡ true
    → has_no_dict_of params ≡ true
has_no_dict_of-tail key empty params h = h
has_no_dict_of-tail key (class c) params h = h
has_no_dict_of-tail key (list_of c) params h = h
has_no_dict_of-tail key dict_of params h = cc
has_no_dict_of-tail key other params h = h

from_members-Reads :
    (params : List (Name × Annotation)) (m : Members)
    → has_no_dict_of params ≡ true
    → Reads (from_members params m) (admits params m) (to_args params) (map (λ p. get m p.0) params)
from_members-Reads [] m h = inr (tt, refl, refl, refl)
from_members-Reads ((key, a) ∷ params) m h =
    both (from_arg-Reads a (get m key) (has_no_dict_of-head key a params h))
      (from_members-Reads params m (has_no_dict_of-tail key a params h))
  where
    both :
        Reads (from_arg a (get m key)) (fits a (get m key)) (to_arg a) (get m key)
        → Reads
            (from_members params m)
            (admits params m)
            (to_args params)
            (map (λ p. get m p.0) params)
        → Reads
            (from_members ((key, a) ∷ params) m)
            (admits ((key, a) ∷ params) m)
            (to_args ((key, a) ∷ params))
            (map (λ p. get m p.0) ((key, a) ∷ params))
    both (inl (e, f)) later = inl (ground (arith, e), ground (arith, f))
    both (inr (x, e, f, g)) (inl (e', f')) = inl (ground (arith, e, e'), ground (arith, f, f'))
    both (inr (x, e, f, g)) (inr (t, e', f', g')) =
        inr ((x, t), ground (arith, e, e'), ground (arith, f, f'), cc)

-- A handler with types, none of them `dict[…]`, behaves as a function of typed arguments: if `func`
-- gives for the arguments of these types what `typed` gives, whatever it does for others, then a
-- JSON object is answered with `typed` of the arguments of these types that it has for the
-- parameters' keys, and with the status 400 if it has none.
pub respond-typed :
    {A : Type 0} (params : List (Name × Annotation)) (func : List Json → Result A)
    (typed : Arguments params → Result A) (m : Members)
    → has_no_dict_of params ≡ true
    → ((t : Arguments params) → func (to_args params t) ≡ typed t)
    → respond func params true (some (object m))
      ≡ (elim (from_members params m) [ none ↦ status 400 | some t ↦ reply (typed t) ])
respond-typed params func typed m h agree =
    (respond_lem func params m).2 ∙ answered (from_members-Reads params m h)
  where
    answered :
        Reads
          (from_members params m)
          (admits params m)
          (to_args params)
          (map (λ p. get m p.0) params)
        → (if admits params m then reply (func (map (λ p. get m p.0) params)) else status 400)
          ≡ (elim (from_members params m) [ none ↦ status 400 | some t ↦ reply (typed t) ])
    answered (inl (e, f)) = ground (arith, e, f)
    answered (inr (t, e, f, g)) = rw (f, ← g) (ground (arith, e, agree t))
