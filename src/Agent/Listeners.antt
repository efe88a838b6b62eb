-- ===== src/Agent/Listeners.antt =====
-- The listeners of events of sovrin/agent/agent.py: `registerEventListener` and
-- `deregisterEventListener`. A set that holds a
-- listener is true, and `set.add` returns None, which is what the second registration stores.
use sovrin.Prelude.{String, ◌≡◌, Option, none, some, List, [], ◌∷◌, String-Eq}
use sovrin.Python.Result.{Result, ok, err, type_error}
use sovrin.Python.Dict.{Dict, lookup, insert, lookup-insert_self}

-- the value of an event: None, or a set of listeners
abbrev pub Listeners : Type 0 → Type 0
Listeners L = Dict String (Option (List L))

module _ (L : Type 0) where
  abbrev next_value : L → Option (Option (List L)) → Option (List L)
  next_value l (some (some (k ∷ ks))) = none
  next_value l v = some (l ∷ [])

  unfoldable pub register_event_listener : String → L → Listeners L → Listeners L
  unfolding insert lookup
  register_event_listener event l d = insert event (next_value l (lookup event d)) d

  -- `deregisterEventListener`: `set(listener)` iterates over a callable, which raises
  unfoldable pub deregister_event_listener : String → L → Listeners L → Result (Unit {0})
  unfolding lookup
  deregister_event_listener event l d = elim (lookup event d) [
    | some (some (k ∷ ks)) ↦ err type_error
    | _ ↦ ok tt
  ]

  -- Of three listeners that register for an event without listeners, one after the other, the
  -- second registration leaves None in place of the set, and the third leaves the third listener
  -- alone.
  pub register_event_listener-forgets :
      (event : String) (a b c : L) (d : Listeners L)
      → lookup event d ≡ none
      → let two = register_event_listener event b (register_event_listener event a d) in
        (lookup event two ≡ some none)
        × (lookup event (register_event_listener event c two) ≡ some (some (c ∷ [])))
  unfolding register_event_listener
  register_event_listener-forgets event a b c d free = rw free (
      rw (lookup-insert_self event (some (a ∷ [])) d) (
        lookup-insert_self event none (insert event (some (a ∷ [])) d),
        rw (lookup-insert_self event none (insert event (some (a ∷ [])) d)) (
            lookup-insert_self event (some (c ∷ []))
              (insert event none (insert event (some (a ∷ [])) d))),
      ))
