-- ===== src/Client/Replies/Tests.antt =====
-- The theorems on replies at a client whose graph has one steward.
use sovrin.Prelude.{
  String, ◌≡◌, refl, true, false, none, some, List, [], ◌∷◌, ◌++◌, String-Eq, if◌then◌else◌, ◌==◌,
}
use sovrin.Python.Dict.{Dict, lookup}
use sovrin.Python.Value.{str, Object, get}
use sovrin.Python.Result.{ok, err, runtime_error}
use sovrin.Python.Exec.{Exec, pure}
use sovrin.Txn.Names
use sovrin.Graph.Db.{Vertex}
use sovrin.Graph.Memory.{memory, one_steward, steward_props}
use sovrin.Graph.Nyms.{get_nym}
use sovrin.Client.Replies.{Outside, Client, post_reply_recvd}
use sovrin.Client.Replies.Kept.{post_reply_recvd-keeps_nyms}

-- An observer writes its name into a log; the observer "bad" raises after that.
abbrev observe : String → String → Object → Exec (List String) Unit
observe o name result log =
    if o == "bad" then (err runtime_error, log ++ name ∷ []) else (ok tt, log ++ name ∷ [])

abbrev logging : Outside (List String) String
logging = record {
  call = observe;
  is_orient_db = false;
  set_consensus = pure tt;
  set_last_txn_for_identifier = λ i v. pure tt;
  json_loads = λ s. none;
  json_dumps = λ v. "{}";
  fault = λ e. ok tt;
  error = ok tt;
}

abbrev two_observers : Dict String String
two_observers = ("first", "bad") ∷ ("second", "good") ∷ []

abbrev received : Object
received =
    (Names.txn_type, str Names.nym)
    ∷ (Names.target_nym, str "Alice")
    ∷ (Names.role, str Names.sponsor)
    ∷ (Names.txn_id, str "50c2")
    ∷ (Names.identifier, str "Steward1")
    ∷ []

abbrev client : Client (List String) memory
client = record { outside = []; graph = one_steward }

abbrev steward_vertex : Vertex
steward_vertex = record { rid = 0; props = steward_props }

post_reply_recvd-keeps_nyms_example :
    get_nym memory
      (str "Steward1")
      (post_reply_recvd logging memory true true two_observers received client).1.graph
    ≡ some steward_vertex
unfolding get lookup get_nym
post_reply_recvd-keeps_nyms_example =
    post_reply_recvd-keeps_nyms memory logging true true two_observers received client
      (str "Steward1") steward_vertex refl
