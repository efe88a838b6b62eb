-- ===== src/Client/ReqRep/Tests.antt =====
-- The theorems on a client's requests, at a table in memory with one request.
use sovrin.Prelude.{String, ◌≡◌, refl, true, List, [], ◌∷◌, ◌++◌, map, String-Eq}
use sovrin.Python.Dict.{Dict, lookup, insert}
use sovrin.Python.Value.{Value, null, str, Object}
use sovrin.Python.Result.{ok}
use sovrin.Txn.Names
use sovrin.Client.ReqRep.{
  ReqData, ReqDb, Replying, change_if, row, add_reply, request_confirmed, id_of,
}
use sovrin.Client.ReqRep.Confirmed.{add_reply-first_wins}

record Table : Type 0 where
  rows : List ReqData
  last_txns : Dict String Value

abbrev table : ReqDb
table = record {
  Store = Table;
  rows = λ t. t.rows;
  last_txns = λ t. t.last_txns;
  insert_row = λ r t. record t { rows = t.rows ++ r ∷ [] };
  update_rows = λ n f t. record t { rows = map (change_if n f) t.rows };
  upsert_last = λ i v t. record t { last_txns = insert i v t.last_txns };
  rows-insert_row = λ r t. refl;
  rows-update_rows = λ n f t. refl;
  last_txns-upsert_last = λ i v t. refl;
}

abbrev replying : Replying
replying = record {
  serialize = λ o. "txn";
  deserialize = λ s. [];
  max_failures = λ n. 1;
  more_than_f_same = λ os f. null;
}

abbrev asked : ReqData
asked = record {
  req_id = 7;
  identifier = str "Steward1";
  txn_type = str Names.nym;
  txn_id = null;
  txn_time = null;
  acks = "Alpha" ∷ [];
  nacks = [];
  replies = [];
  has_consensus = null;
}

abbrev one_request : Table
one_request = record { rows = asked ∷ []; last_txns = [] }

abbrev good : Object
good = (Names.txn_id, str "50c2") ∷ (Names.txn_type, str Names.nym) ∷ []

abbrev bad : Object
bad = (Names.txn_id, str "ffff") ∷ []

add_reply-first_wins_example :
    let (k, s') = add_reply replying table 7 "Alpha" good one_request in
    let (m, s'') = add_reply replying table 7 "Beta" bad s' in
    (k ≡ ok 1)
    × (request_confirmed replying table 7 s' ≡ true)
    × (m ≡ ok 2)
    × (request_confirmed replying table 7 s'' ≡ true)
    × (id_of replying table (row replying table 7 s'') ≡ str "50c2")
unfolding lookup
add_reply-first_wins_example =
    add_reply-first_wins replying table 7 "Alpha" "Beta" "50c2" good bad one_request asked
      (str Names.nym) refl refl refl refl refl (str "ffff") refl refl
