-- ===== src/Node/Samples.antt =====
-- A node for the tests: a ledger that is a list, stand-ins for the functions of the libraries, and
-- a graph with one steward.
use sovrin.Prelude.{
  ◌+◌, String, ◌≡◌, refl, false, some, List, [], ◌∷◌, ◌++◌, length, any, ◌==◌, String-Eq, arith,
  eq_iff,
}
use sovrin.Python.Dict.{lookup, contains}
use sovrin.Python.Value.{Value, str, num, Object}
use sovrin.Python.Result.{Result, ok}
use sovrin.Txn.Names
use sovrin.Signing.{Request}
use sovrin.Graph.Memory.{memory, one_steward}
use sovrin.Node.Env.{Plenum, Ledger, State, merkle_keys}

abbrev pub plain : Plenum
plain = record {
  sha256 = λ s. "hash";
  json_dumps = λ v. "{}";
  to_str = λ v. "1";
  json_loads = λ s. some (str s);
  gen_txn_id = λ i n. "id";
  pool_txn_types = [];
  fault = λ e. ok tt;
  error = ok tt;
  base_check_valid_operation = λ op. ok tt;
  base_check_request_authorized = λ r. ok tt;
}

abbrev append_entry : Object → List Object → Object × List Object
append_entry txn l = ((Names.seq_no, num (length l + 1)) ∷ [], l ++ txn ∷ [])

pub seq_no-append_entry :
    (txn : Object) (l : List Object)
    → lookup Names.seq_no (append_entry txn l).0 ≡ some (num (length l + 1))
unfolding lookup
seq_no-append_entry txn l = refl

pub merkle_keys-append_entry :
    (txn : Object) (l : List Object) (k : String)
    → any (◌==◌ k) merkle_keys ≡ false
    → contains k (append_entry txn l).0 ≡ false
unfolding contains
merkle_keys-append_entry txn l k h = ground (arith, eq_iff k Names.seq_no, eq_iff Names.seq_no k)

abbrev pub list_ledger : Ledger
list_ledger = record {
  Log = List Object;
  entries = λ l. l;
  append = append_entry;
  kept = λ txn. txn;
  lookup-kept = λ txn k h. refl;
  entries-append = λ txn l. refl;
  seq_no-append = seq_no-append_entry;
  merkle_keys-append = merkle_keys-append_entry;
}

-- `merkleInfo` of that ledger
abbrev pub list_merkle : List Object → Value → Result Object
list_merkle log n = ok ((Names.seq_no, n) ∷ [])

-- one client waits for the reply to request 7 of the steward
abbrev pub waiting : State memory list_ledger
waiting = record {
  graph = one_steward;
  log = [];
  request_sender = (("Steward1", 7), "client") ∷ [];
  sent = [];
}

abbrev pub request_of : Object → Request
request_of op = record { identifier = str "Steward1"; req_id = 7; operation = op }

abbrev pub new_sponsor : Object
new_sponsor =
    (Names.txn_type, str Names.nym)
    ∷ (Names.target_nym, str "Alice")
    ∷ (Names.role, str Names.sponsor)
    ∷ []

abbrev pub known_nym : Object
known_nym = (Names.txn_type, str Names.nym) ∷ (Names.target_nym, str "Steward1") ∷ []

abbrev pub own_attribute : Object
own_attribute =
    (Names.txn_type, str Names.attrib)
    ∷ (Names.target_nym, str "Steward1")
    ∷ (Names.raw, str "name: Faber")
    ∷ []
