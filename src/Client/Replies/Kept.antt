-- ===== src/Client/Replies/Kept.antt =====
-- What a reply does to the identity graph of a client.
use sovrin.Prelude.{String, ◌≡◌, Bool, some, [], ◌∙◌, String-Eq}
use mathlib.Core.List.{append-nil}
use sovrin.Prelude.{sym}
use sovrin.Python.Dict.{Dict}
use sovrin.Python.Value.{Value, Object, Items, nil, cons}
use sovrin.Python.Result.{Exc, orient_command}
use sovrin.Python.Exec.{Exec}
use sovrin.Python.Exec.Relates.{IsPreorder, Relates, relates_rules}
use sovrin.Graph.Db.{OrientDb, Vertex, VertexClass}
use sovrin.Graph.Nyms.{get_nym}
use sovrin.Graph.Nyms.Frame.{
  Extends, Extends-preorder, add_nym-Extends, add_nym_txn_to_graph-Extends, get_nym-Extends,
}
use sovrin.Graph.Attributes.{add_attrib_txn_to_graph}
use sovrin.Graph.Creds.{add_cred_def_txn_to_graph, add_issuer_key_txn_to_graph}
use sovrin.Graph.Registry.Frame.{
  SameNyms, add_attrib_txn_to_graph-SameNyms, add_cred_def_txn_to_graph-SameNyms,
  add_issuer_key_txn_to_graph-SameNyms,
}
use sovrin.Client.{add_nym_to_graph, ignore_command}
use sovrin.Client.Replies.{
  Outside, Client, on_outside, on_graph, add_one_synced, command_fault, add_all_synced,
  get_nym_received, get_txns_received, by_type, post_reply_recvd,
}

module _ (db : OrientDb) where
  same-Extends :
      {A : Type 0} (m : Exec db.Store A) → Relates (SameNyms db) m → Relates (Extends db) m
  same-Extends m same = record {
    at = λ s. ([], same.at s ∙ sym (append-nil (db.vertices VertexClass.nym s)));
  }

  module _ {W O : Type 0} (out : Outside W O) (has_graph : Bool) where
    ruleset keeping_rules = (relates_rules, Extends-preorder)

    ignore_command-Extends : (e : Exc) → Relates (Extends db) (ignore_command db out.fault e)
    ignore_command-Extends orient_command = search keeping_rules
    ignore_command-Extends _ = search keeping_rules

    command_fault-Extends : (e : Exc) → Relates (Extends db) (command_fault out db has_graph e)
    command_fault-Extends orient_command = search keeping_rules
    command_fault-Extends _ = search keeping_rules

    add_nym_to_graph-Extends :
        (txn : Object) → Relates (Extends db) (add_nym_to_graph db out.fault txn)
    unfolding add_nym_to_graph
    add_nym_to_graph-Extends txn =
        search
          (keeping_rules, ignore_command-Extends, add_nym-Extends, add_nym_txn_to_graph-Extends)
          depth 9

    attrib-Extends :
        (txn : Object) → Relates (Extends db) (add_attrib_txn_to_graph db out.fault out.error txn)
    attrib-Extends txn =
        same-Extends (add_attrib_txn_to_graph db out.fault out.error txn)
          (add_attrib_txn_to_graph-SameNyms db out.fault out.error txn)

    cred_def-Extends :
        (txn : Object) → Relates (Extends db) (add_cred_def_txn_to_graph db out.fault txn)
    cred_def-Extends txn =
        same-Extends (add_cred_def_txn_to_graph db out.fault txn)
          (add_cred_def_txn_to_graph-SameNyms db out.fault txn)

    issuer_key-Extends :
        (txn : Object)
        → Relates (Extends db) (add_issuer_key_txn_to_graph db out.json_dumps out.fault txn)
    issuer_key-Extends txn =
        same-Extends (add_issuer_key_txn_to_graph db out.json_dumps out.fault txn)
          (add_issuer_key_txn_to_graph-SameNyms db out.json_dumps out.fault txn)

    add_one_synced-Extends :
        (v : Value) (next : Exec db.Store Unit)
        → Relates (Extends db) next
        → Relates (Extends db) (add_one_synced out db has_graph v next)
    add_one_synced-Extends v next rest =
        search (keeping_rules, add_nym_to_graph-Extends, attrib-Extends, command_fault-Extends)
          depth 20

    add_all_synced-Extends :
        (vs : Items) → Relates (Extends db) (add_all_synced out db has_graph vs)
    unfolding add_all_synced
    add_all_synced-Extends nil = search keeping_rules
    add_all_synced-Extends (cons v vs) =
        add_one_synced-Extends v (add_all_synced out db has_graph vs) (add_all_synced-Extends vs)

    get_nym_received-Extends :
        (result : Object) → Relates (Extends db) (get_nym_received out db has_graph result)
    unfolding get_nym_received
    get_nym_received-Extends result = search (keeping_rules, add_nym_to_graph-Extends) depth 12

    -- The graph of the second client has the nyms of the first one's, and perhaps more.
    abbrev pub Grows : Client W db → Client W db → Type 0
    Grows c d = Extends db c.graph d.graph

    Grows-preorder : IsPreorder Grows
    Grows-preorder = record {
      same = λ c. (Extends-preorder db).same c.graph;
      chain = λ c d e. (Extends-preorder db).chain c.graph d.graph e.graph;
    }

    on_outside-Grows : (m : Exec W Unit) → Relates Grows (on_outside out db has_graph m)
    on_outside-Grows m = record { at = λ c. (Extends-preorder db).same c.graph }

    on_graph-Grows :
        (m : Exec db.Store Unit)
        → Relates (Extends db) m
        → Relates Grows (on_graph out db has_graph m)
    on_graph-Grows m g = record { at = λ c. g.at c.graph }

    ruleset grows_rules = (relates_rules, Grows-preorder, on_outside-Grows, on_graph-Grows)

    get_txns_received-Grows :
        (result : Object) → Relates Grows (get_txns_received out db has_graph result)
    unfolding get_txns_received
    get_txns_received-Grows result = search (grows_rules, add_all_synced-Extends) depth 20

    by_type-Grows :
        (type : Value) (result : Object) → Relates Grows (by_type out db has_graph type result)
    by_type-Grows type result =
        search
          (
            grows_rules, add_nym_to_graph-Extends, attrib-Extends, get_nym_received-Extends,
            get_txns_received-Grows, cred_def-Extends, issuer_key-Extends,
          )
          depth 20

    post_reply_recvd-Grows :
        (replied : Bool) (observers : Dict String O) (result : Object)
        → Relates Grows (post_reply_recvd out db has_graph replied observers result)
    unfolding post_reply_recvd
    post_reply_recvd-Grows replied observers result = search (grows_rules, by_type-Grows) depth 16

    -- A nym that the graph of a client has keeps its record, so also its role, whatever reply the
    -- client gets, and whether its method returns or raises.
    pub post_reply_recvd-keeps_nyms :
        (replied : Bool) (observers : Dict String O) (result : Object) (c : Client W db) (n : Value)
        (v : Vertex)
        → get_nym db n c.graph ≡ some v
        → get_nym db n (post_reply_recvd out db has_graph replied observers result c).1.graph
          ≡ some v
    post_reply_recvd-keeps_nyms replied observers result c n v h =
        get_nym-Extends db c.graph
          (post_reply_recvd out db has_graph replied observers result c).1.graph n v
          ((post_reply_recvd-Grows replied observers result).at c) h
