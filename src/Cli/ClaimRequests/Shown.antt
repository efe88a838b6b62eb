-- ===== src/Cli/ClaimRequests/Shown.antt =====
-- Which values a claim request has after it is shown.
use sovrin.Prelude.{
  ◌≡◌, refl, ◌∙◌, String, some, List, [], ◌∷◌, ◌++◌, false, if◌then◌else◌, arith, String-Eq, ◌==◌,
  beq_refl, eq_iff,
}
use sovrin.Python.Dict.{lookup, insert, contains, lookup-insert}
use sovrin.Python.Value.{Value, str, Object, get, or_else}
use sovrin.Links.{mem}
use sovrin.Cli.ClaimRequests.{Match, assign_from, attributes_with_value}

-- the value that a match gives: that of its claim if it lists the attribute, else the given one
abbrev pub from_match : String → Value → Match → Value
from_match k v (li, (rc, common)) = if mem k common then get k rc.values else or_else v (str "")

-- the last match of a list that has one
abbrev pub last_match : Match → List Match → Match
last_match m [] = m
last_match m (n ∷ ms) = last_match n ms

lookup-assign_from :
    (j k : String) (v : Value) (m : Match) (ms : List Match) (values : Object)
    → lookup j (assign_from k v (m ∷ ms) values)
      ≡ (if k == j then some (from_match k v (last_match m ms)) else lookup j values)
unfolding assign_from
lookup-assign_from j k v m [] values = lookup-insert k j (from_match k v m) values
lookup-assign_from j k v m (n ∷ ms) values = ground (
  arith,
  lookup-assign_from j k v n ms (insert k (from_match k v m) values),
  lookup-insert k j (from_match k v m) values,
)

lookup-later :
    (k : String) (attributes : Object) (m : Match) (ms : List Match) (values : Object)
    → contains k attributes ≡ false
    → lookup k (attributes_with_value attributes (m ∷ ms) values) ≡ lookup k values
unfolding attributes_with_value contains
lookup-later k [] m ms values fresh = refl
lookup-later k ((j, v) ∷ attributes) m ms values fresh = ground (
  arith,
  lookup-later k attributes m ms (assign_from j v (m ∷ ms) values),
  lookup-assign_from k j v m ms values,
  eq_iff j k,
)

lookup-attributes_with_value :
    (k : String) (v : Value) (before after : Object) (m : Match) (ms : List Match) (values : Object)
    → contains k after ≡ false
    → lookup k (attributes_with_value (before ++ (k, v) ∷ after) (m ∷ ms) values)
      ≡ some (from_match k v (last_match m ms))
unfolding attributes_with_value
lookup-attributes_with_value k v [] after m ms values fresh =
    lookup-later k after m ms (assign_from k v (m ∷ ms) values) fresh
    ∙ rw (lookup-assign_from k k v m ms values) (rw (beq_refl k))
lookup-attributes_with_value k v ((j, w) ∷ before) after m ms values fresh =
    lookup-attributes_with_value k v before after m ms (assign_from j w (m ∷ ms) values) fresh

none_left : (attributes values : Object) → attributes_with_value attributes [] values ≡ values
unfolding attributes_with_value assign_from
none_left [] values = refl
none_left ((k, v) ∷ attributes) values = none_left attributes values

-- Showing a claim request gives each of its attributes the value that the last of the matching claims
-- makes for it: the claim's own, if that claim is the one that lists the attribute, and otherwise
-- the value that the request had, or an empty text, whatever the matches before it list. Without any
-- matching claim the request loses all of its attributes.
pub attributes_with_value-last :
    (k : String) (v : Value) (before after : Object)
    → contains k after ≡ false
    → ((m : Match) (ms : List Match)
        → lookup k (attributes_with_value (before ++ (k, v) ∷ after) (m ∷ ms) [])
          ≡ some (from_match k v (last_match m ms)))
      × (attributes_with_value (before ++ (k, v) ∷ after) [] [] ≡ [])
attributes_with_value-last k v before after fresh = (
  λ m ms. lookup-attributes_with_value k v before after m ms [] fresh,
  none_left (before ++ (k, v) ∷ after) [],
)
