-- ===== src/Client.antt =====
-- sovrin/client/client.py: the observers of a client, and what a reply adds to its identity graph;
-- the last transactions of sovrin/persistence/client_req_rep_store_file.py are in `LastTxns`.
pub mod LastTxns
pub mod Observers
pub mod Replies
pub mod Queries
pub mod ReqRep
pub mod Files
use sovrin.Prelude.{
  String, Bool, true, false, not, Option, none, some, List, [], ◌∷◌, ◌++◌, if◌then◌else◌, any, keep,
  String-Eq, Eq, ◌==◌, ◌||◌,
}
use sovrin.Python.Dict.{Dict, lookup, insert, contains, erase}
use sovrin.Python.Value.{Value, null, str, Object, get, is_str}
use sovrin.Python.Result.{Exc, Result, ok, err, runtime_error, orient_command}
use sovrin.Python.Exec.{Exec, pure, raise, lift, gets, catching, ◌>>=◌, ◌>>◌}
use sovrin.Txn.Names
use sovrin.Graph.Db.{OrientDb}
use sovrin.Graph.Nyms.{has_steward, add_nym, add_nym_txn_to_graph}

-- `_observers` and `_observerSet`; an observer is a callable, compared by `==`.
pub record Observed (O : Type 0) : Type 0 where
  pub observers : Dict String O
  pub observer_set : List O

abbrev pub given_name : String → Option String → String
given_name fresh none = fresh
given_name fresh (some n) = if n == "" then fresh else n

module _ {O : Type 0} ⦃e : Eq O⦄ where
  abbrev pub in_set : O → List O → Bool
  in_set o os = any (λ (q : O). e.beq q o) os

  abbrev pub set_remove : O → List O → List O
  set_remove o os = keep (λ (q : O). not (e.beq q o)) os

  abbrev register_as : O → String → Observed O → Result (Unit {0}) × Observed O
  register_as o n s =
      if contains n s.observers || in_set o s.observer_set then (err runtime_error, s) else (
        ok tt,
        record s { observers = insert n o s.observers; observer_set = s.observer_set ++ o ∷ [] },
      )

  -- `registerObserver`; `fresh` is the name that `uuid4` makes.
  unfoldable pub register_observer :
      (fresh : String) → O → (name : Option String) → Exec (Observed O) Unit
  unfolding insert contains
  register_observer fresh o name s = register_as o (given_name fresh name) s

  abbrev deregister_found : String → Option O → Observed O → Result (Unit {0}) × Observed O
  deregister_found n none s = (err runtime_error, s)
  deregister_found n (some o) s = (
    ok tt,
    record s { observers = erase n s.observers; observer_set = set_remove o s.observer_set },
  )

  unfoldable pub deregister_observer : String → Exec (Observed O) Unit
  unfolding erase lookup
  deregister_observer n s = deregister_found n (lookup n s.observers) s

module _ (db : OrientDb) (fault : Exc → Result (Unit {0})) where
  abbrev pub ignore_command : Exc → Exec db.Store Unit
  ignore_command orient_command = pure tt
  ignore_command e = raise e

  -- `addNymToGraph`: the origin of a sponsor must be a steward, also in a client's own graph
  unfoldable pub add_nym_to_graph : Object → Exec db.Store Unit
  add_nym_to_graph txn = do
    let origin = get Names.identifier txn
    known ← gets (has_steward db origin)
    if is_str (get Names.role txn) Names.sponsor
        then (if known
            then pure tt
            else catching (add_nym db null origin (str Names.steward) null null null)
                ignore_command)
        else pure tt
    add_nym_txn_to_graph db fault txn
