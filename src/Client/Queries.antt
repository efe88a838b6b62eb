-- ===== src/Client/Queries.antt =====
-- The questions that sovrin/client/client.py answers from a client's graph, or from its log of
-- transactions where it has no graph, and `getTxnsByType` of sovrin/persistence/client_txn_log.py.
use sovrin.Prelude.{
  String, ◌≡◌, refl, Bool, true, false, Option, none, some, List, [], ◌∷◌, any, map, if◌then◌else◌,
  String-Eq, ◌||◌, Eq, arith,
}
use sovrin.Python.Dict.{insert, values}
use sovrin.Python.Value.{Value, null, str, obj, Object, get, is_str, of_dict}
use sovrin.Python.Result.{Result, ok, ◌>>=◌}
use sovrin.Txn.Names
use sovrin.Graph.Db.{OrientDb, Edge, EdgeClass}
use sovrin.Graph.Nyms.{has_nym}
use sovrin.Graph.Replies.{Reader, item, get_edge_by_txn_type, get_result_for_txn_ids}
use sovrin.Client.{Observed, in_set}

-- `hasObserver`, which looks for the observer although its argument is called a name
unfoldable pub has_observer : {O : Type 0} ⦃e : Eq O⦄ → O → Observed O → Bool
has_observer o s = in_set o s.observer_set

-- the messages of a node that `handleOneNodeMsg` keeps from the command line: REQACK and REPLY
unfoldable pub exclude_from_cli : (asked : Bool) → (op : Value) → Bool
exclude_from_cli asked op = asked || (is_str op "REQACK" || is_str op "REPLY")

-- `getTxnsByType` of the log, on its texts; `deserialize` is the serializer's
unfoldable pub logged_by_type : (String → Object) → String → List String → List Object
logged_by_type deserialize type [] = []
logged_by_type deserialize type (t ∷ ts) =
    let rest = logged_by_type deserialize type ts in
    if is_str (get Names.txn_type (deserialize t)) type then deserialize t ∷ rest else rest

-- A client's graph, if it has one, and its log.
module _ (q : Reader) (db : OrientDb) where
  -- `getTxnById`; without a graph it returns `None`
  abbrev first_or_empty : List Object → Object
  first_or_empty [] = []
  first_or_empty (o ∷ os) = o

  unfoldable pub get_txn_by_id : Value → Option db.Store → Result (Option Object)
  unfolding get_result_for_txn_ids
  get_txn_by_id id none = ok none
  get_txn_by_id id (some s) = do
    found ← get_result_for_txn_ids q db (id ∷ []) null s
    ok (some (first_or_empty (values found)))

  -- the data of a logged credential definition, read again as JSON by `reparse`
  abbrev with_data : (Value → Result Object) → Object → Result Object
  with_data reparse txn = do
    held ← item Names.data_key txn
    data_ ← reparse held
    name ← item Names.name data_
    version ← item Names.version data_
    ok (
        insert Names.version version
          (insert Names.name name (insert Names.data_key (obj (of_dict data_)) txn)))

  unfoldable pub all_with_data : (Value → Result Object) → List Object → Result (List Object)
  unfolding insert
  all_with_data reparse [] = ok []
  all_with_data reparse (t ∷ ts) = do
    txn ← with_data reparse t
    txns ← all_with_data reparse ts
    ok (txn ∷ txns)

  abbrev on_edges : Option EdgeClass → db.Store → List Object
  on_edges none s = []
  on_edges (some c) s = map (λ (e : Edge). e.props) (db.edges c s)

  -- `getTxnsByType`; `logged` is what the log has of the type
  unfoldable pub get_txns_by_type :
      (Value → Result Object)
      → String
      → (logged : List Object) → Option db.Store
      → Result (List Object)
  unfolding all_with_data
  get_txns_by_type reparse type logged (some s) = ok (on_edges (get_edge_by_txn_type (str type)) s)
  get_txns_by_type reparse type logged none =
      if str_type type Names.cred_def then all_with_data reparse logged else ok logged
    where
      str_type : String → String → Bool
      str_type t u = is_str (str t) u

  -- `hasNym`
  unfoldable pub has_nym_txn : List Object → Bool
  has_nym_txn [] = false
  has_nym_txn (t ∷ ts) =
      let rest = has_nym_txn ts in if is_str (get Names.txn_type t) Names.nym then true else rest

  unfoldable pub client_has_nym : Value → (logged : List Object) → Option db.Store → Bool
  unfolding has_nym has_nym_txn
  client_has_nym nym logged (some s) = has_nym db nym s
  client_has_nym nym logged none = has_nym_txn logged

  -- Without a graph a client takes every nym to be there as soon as its log has a NYM transaction,
  -- whichever nym that is about, and no nym before.
  pub client_has_nym-any :
      (deserialize : String → Object) (nym : Value) (log : List String)
      → client_has_nym nym (logged_by_type deserialize Names.nym log) none
        ≡ any (λ (t : String). is_str (get Names.txn_type (deserialize t)) Names.nym) log
  unfolding client_has_nym logged_by_type has_nym_txn
  client_has_nym-any deserialize nym [] = refl
  client_has_nym-any deserialize nym (t ∷ ts) =
      ground (arith, client_has_nym-any deserialize nym ts)
