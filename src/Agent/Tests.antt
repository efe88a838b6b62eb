-- ===== src/Agent/Tests.antt =====
-- The theorems on agents, with a verifier that rejects every signature.
use sovrin.Prelude.{String, ◌≡◌, refl, false, none, some, [], ◌∷◌, String-Eq}
use sovrin.Python.Dict.{lookup}
use sovrin.Python.Value.{str, Object}
use sovrin.Python.Result.{ok}
use sovrin.Txn.Names
use sovrin.Agent.{Crypto, State, signature}
use sovrin.Agent.Listeners.{register_event_listener, register_event_listener-forgets}

abbrev pub strict : Crypto
strict = record {
  is_hex = λ s. false;
  cryptonym_to_hex = λ s. s;
  get_cryptonym = λ s. s;
  serialize = λ d. "text";
  verify = λ k s t. ok false;
  sign_msg = λ d i. "sig";
  default_id = str "Faber";
}

abbrev pub idle : State
idle = record { links = []; sent = []; notices = [] }

abbrev pub accept_invite : Object
accept_invite =
    (Names.txn_type, str "ACCEPT_INVITE")
    ∷ (Names.identifier, str "Alice")
    ∷ (Names.nonce, str "b1134a")
    ∷ (signature, str "forged")
    ∷ []

register_event_listener-forgets_example :
    let two = register_event_listener String "E" "b" (register_event_listener String "E" "a" []) in
    (lookup "E" two ≡ some none)
    × (lookup "E" (register_event_listener String "E" "c" two) ≡ some (some ("c" ∷ [])))
unfolding lookup
register_event_listener-forgets_example =
    register_event_listener-forgets String "E" "a" "b" "c" [] refl
