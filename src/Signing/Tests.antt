-- ===== src/Signing/Tests.antt =====
-- The signature theorem at a request that writes an attribute.
use sovrin.Prelude.{String, ◌≡◌, refl, true, List, [], ◌∷◌, any, ◌==◌, String-Eq, beq_refl}
use sovrin.Python.Dict.{lookup, contains}
use sovrin.Python.Value.{str, num, obj, Object, of_dict, get}
use sovrin.Python.Result.{ok, ◌>>=◌}
use sovrin.Txn.Names
use sovrin.Signing.{Request, Pop, data_keys, get_signing_state, serialize_for_sig}
use sovrin.Signing.Agreement.{signing_agrees}

abbrev first_of : List String → String
first_of [] = ""
first_of (k ∷ ks) = k

first_of-member : (k : String) (ks : List String) → any (◌==◌ k) (k ∷ ks) ≡ true
first_of-member k ks = rw (beq_refl k)

abbrev pop_first : Pop
pop_first = record { pop = first_of; pop_member = first_of-member }

abbrev attrib_request : Request
attrib_request = record {
  identifier = str "Alice";
  req_id = 7;
  operation = (Names.txn_type, str Names.attrib) ∷ (Names.raw, str "name: Alice") ∷ [];
}

abbrev state_of : Request → Object
state_of r =
    (Names.identifier, r.identifier)
    ∷ (Names.req_id, num r.req_id)
    ∷ (Names.operation, obj (of_dict r.operation))
    ∷ []

abbrev hash_of : String → String
hash_of s = "hash"

abbrev text : Object → String
text d = "text"

signing_agrees_example :
    (get_signing_state hash_of state_of pop_first attrib_request >>= λ d. ok (text d))
    ≡ serialize_for_sig hash_of text pop_first (state_of attrib_request)
unfolding get lookup contains data_keys
signing_agrees_example =
    signing_agrees hash_of state_of text pop_first pop_first attrib_request Names.raw refl
      (λ e. refl)
