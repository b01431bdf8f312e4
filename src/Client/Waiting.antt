-- ===== src/Client/Waiting.antt =====
-- `BaseClientEventHandler` of src/usbipice/client/lib/BaseClient.py: waiting for initialization.
use usbip_ice.Base.{
  Name, ◌≡◌, refl, sym, ◌∙◌, Bool, true, not, ◌&&◌, List, [], ◌∷◌, arith, contains, filter,
  is_empty, ◌==◌,
}

-- `self.awaiting_serials`, a set. Nothing is ever put into `self.recently_added_serials`, so its
-- loop in `waitUntilInitilized` has no turn.
pub record Handler : Type 0 where
  pub awaiting_serials : List Name

-- `handleInitialization`
pub handle_initialization : Name → Handler → Handler
handle_initialization serial h = record {
  awaiting_serials = filter (λ s. not (s == serial)) h.awaiting_serials;
}

abbrev pub handle_all : List Name → Handler → Handler
handle_all [] h = h
handle_all (s ∷ l) h = handle_all l (handle_initialization s h)

-- `waitUntilInitilized` as it starts
pub start_waiting : List Name → Handler → Handler
start_waiting serials h = record { awaiting_serials = serials }

-- The condition on which it returns
abbrev pub has_finished : Handler → Bool
has_finished h = is_empty h.awaiting_serials

-- Every number of the first list is in the second.
abbrev pub all_in : List Name → List Name → Bool
all_in [] l = true
all_in (s ∷ serials) l = contains s l && all_in serials l

pub all_in-filter :
    (s : Name) (serials l : List Name)
    → all_in (filter (λ k. not (k == s)) serials) l ≡ all_in serials (s ∷ l)
all_in-filter s [] l = refl
all_in-filter s (k ∷ serials) l = ground (arith, all_in-filter s serials l)

pub all_in-nil : (serials : List Name) → all_in serials [] ≡ is_empty serials
all_in-nil [] = refl
all_in-nil (s ∷ serials) = refl

handle_all-finishes :
    (l : List Name) (h : Handler) → has_finished (handle_all l h) ≡ all_in h.awaiting_serials l
unfolding handle_initialization
handle_all-finishes [] h = sym (all_in-nil h.awaiting_serials)
handle_all-finishes (s ∷ l) h =
    handle_all-finishes l (handle_initialization s h) ∙ all_in-filter s h.awaiting_serials l

-- The wait for some serials is over exactly when each of them is named by an "initialized" event
-- that is handled after the wait began: the events handled before it do not count.
pub start_waiting-finishes :
    (before after serials : List Name) (h : Handler)
    → has_finished (handle_all after (start_waiting serials (handle_all before h)))
      ≡ all_in serials after
unfolding start_waiting
start_waiting-finishes before after serials h =
    handle_all-finishes after (start_waiting serials (handle_all before h))
