-- ===== src/Agent/Responses/Tests.antt =====
-- The theorem on messages, with a verifier that rejects every signature.
use sovrin.Prelude.{refl, none, [], String-Eq}
use sovrin.Python.Dict.{lookup, erase}
use sovrin.Python.Value.{str, get}
use sovrin.Python.Result.{ok}
use sovrin.Wallet.Tests.{counter, two_pending}
use sovrin.Agent.{verify_sig}
use sovrin.Agent.Tests.{strict, idle, accept_invite}
use sovrin.Agent.Invitations.{Setting, Walleted}
use sovrin.Agent.Responses.{handle_endpoint_message}
use sovrin.Agent.Responses.Guarded.{Guarded, handle_endpoint_message-Guarded}

abbrev pub setting : Setting
setting = record {
  available_claims = ok (str "Transcript");
  attributes_of = λ nonce. none;
  remote_ha = λ name. ok "127.0.0.1";
  fire = λ e args. ok tt;
  received = λ v. "Received";
  response_from = λ name. name;
  error_text = λ about msg. "Error";
  claims_text = λ names. "claims";
  now = "now";
}

abbrev pub agent : Walleted counter
agent = record { own = idle; wallet = two_pending; submitted = []; claim_defs = []; waiting = [] }

handle_endpoint_message-Guarded_example :
    Guarded strict setting counter agent
      (handle_endpoint_message strict setting counter accept_invite "alice" agent).1
unfolding verify_sig get lookup erase
handle_endpoint_message-Guarded_example =
    handle_endpoint_message-Guarded strict setting counter accept_invite agent refl refl "alice"
