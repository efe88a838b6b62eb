-- ===== src/Graph/Registry.antt =====
-- What the identity graph promises about nyms, without its vertices and edges: a registry of roles
-- in which the first entry of a nym stays. `Refines` shows that the code implements it.
pub mod Frame
pub mod Refines
use sovrin.Prelude.{
  String, Bool, true, false, Option, none, some, List, [], ◌∷◌, if◌then◌else◌, String-Eq, ◌==◌,
  find,
}
use sovrin.Python.Dict.{lookup}
use sovrin.Python.Value.{Value, str, Object, get, or_else, is_str}
use sovrin.Txn.{is_valid_role}
use sovrin.Txn.Names
use sovrin.Graph.Db.{OrientDb, Vertex, VertexClass}
use sovrin.Graph.Nyms.{get_nym, has_text}

abbrev pub Registry : Type 0
Registry = String → Option Value

abbrev pub no_nyms : Registry
no_nyms n = none

abbrev pub first_of : Option Value → Option Value → Option Value
first_of (some r) later = some r
first_of none later = later

-- A nym that is a text gets the role, unless it has one.
abbrev pub enroll : (target role : Value) → Registry → Registry
enroll (str t) role reg n = first_of (reg n) (if t == n then some role else none)
enroll _ role reg n = reg n

abbrev pub enroll_valid : (valid : Bool) → (target id : Option Value) → Value → Registry → Registry
enroll_valid true (some target) (some id) role reg = enroll target role reg
enroll_valid _ _ _ role reg = reg

abbrev pub role_or_user : Object → Value
role_or_user txn = or_else (get Names.role txn) (str Names.user)

-- What a NYM transaction does to the registry: nothing if it has an invalid role, or lacks its
-- target or its id.
abbrev pub enroll_txn : Object → Registry → Registry
enroll_txn txn reg =
    enroll_valid (is_valid_role (role_or_user txn)) (lookup Names.target_nym txn)
      (lookup Names.txn_id txn) (role_or_user txn) reg

-- What any transaction does to it.
abbrev pub apply_txn : Object → Registry → Registry
apply_txn txn reg n =
    if is_str (get Names.txn_type txn) Names.nym then enroll_txn txn reg n else reg n

-- The registry after a list of transactions, the oldest first.
unfoldable pub replay : List Object → Registry → Registry
replay [] reg = reg
replay (txn ∷ txns) reg = replay txns (apply_txn txn reg)

abbrev pub role_found : Option Vertex → Option Value
role_found none = none
role_found (some v) = some (get Names.role v.props)

abbrev pub roles_in : List Vertex → Registry
roles_in vs n = role_found (find (λ (v : Vertex). has_text Names.nym (str n) v.props) vs)

-- The registry that the graph implements.
abbrev pub registry : (db : OrientDb) → db.Store → Registry
registry db s = roles_in (db.vertices VertexClass.nym s)
