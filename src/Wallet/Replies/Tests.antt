-- ===== src/Wallet/Replies/Tests.antt =====
-- The theorem on replies to a wallet at an idle one.
use sovrin.Prelude.{◌≡◌, refl, none, some, [], ◌∷◌, String-Eq, ℕ-Eq, Pair-Eq, Option-Eq}
use sovrin.Python.Dict.{lookup}
use sovrin.Python.Value.{str, num, Object}
use sovrin.Python.Result.{ok, err, value_error}
use sovrin.Txn.Names
use sovrin.Wallet.Items.{attribute_ledger_request, attribute_op}
use sovrin.Wallet.{Wallet, prepare_pending, add_attribute, get_attribute}
use sovrin.Wallet.Tests.{counter, two_pending, name_attribute, name_key, draft_of}
use sovrin.Wallet.Replies.{Outer, handle_incoming_reply}
use sovrin.Wallet.Replies.Dispatch.{add_attribute-replied}

abbrev outer : Outer
outer = record {
  json_loads = λ s. none;
  now = 0;
  split = λ s. s ∷ [];
  join = λ ss. "";
  to_str = λ n. "1";
  to_integer = λ v. err value_error;
}

abbrev attrib_result : Object
attrib_result =
    (Names.identifier, str "Alice")
    ∷ (Names.txn_type, str Names.attrib)
    ∷ (Names.seq_no, num 9)
    ∷ []

abbrev raw_op : Object
raw_op = (Names.txn_type, str Names.attrib) ∷ (Names.raw, str "Alice") ∷ []

abbrev idle : Wallet counter
idle = record two_pending { pending = []; attributes = [] }

add_attribute-replied_example :
    let added = (add_attribute counter name_attribute idle).1 in
    let prepared = (prepare_pending counter added).1 in
    let (r, w') = handle_incoming_reply outer counter 4 attrib_result prepared in
    (r ≡ ok tt)
    × (get_attribute counter name_key w' ≡ some (record name_attribute { seq_no = some 9 }))
unfolding lookup attribute_ledger_request attribute_op
add_attribute-replied_example =
    add_attribute-replied outer counter name_attribute (draft_of raw_op) 9 attrib_result idle refl
      refl refl refl refl
