-- ===== src/Cli/Claims.antt =====
-- The commands on claims: `_getOneLinkAndAvailableClaim`, `_getOneLinkAndReceivedClaim`, `_reqClaim`
-- and `_showClaim`. A name is given without its quotes.
use sovrin.Prelude.{
  cat, String, Bool, true, false, Option, none, some, List, [], ◌∷◌, map, if◌then◌else◌, String-Eq,
  ℕ-Eq, Pair-Eq,
}
use sovrin.Python.Dict.{lookup}
use sovrin.Python.Value.{Value}
use sovrin.Python.Exec.{Exec, pure, lift, gets, ◌>>=◌, ◌>>◌}
use sovrin.Links.{
  Link, ReceivedClaim, AvailableClaim, ClaimDefKey, get_matching_links_with_available_claim,
  get_matching_links_with_received_claim,
}
use sovrin.Links.Printing.{received_claim_str, available_claim_str, claim_def_info_str}
use sovrin.Wallet.{Signer}
use sovrin.Wallet.Replies.{request_issuer_key}
use sovrin.Cli.{
  Terminal, Shell, print, print_all, print_suggestion, req_claim_usage,
  print_not_connected_env_message, on_wallet, is_connected_to_any_env,
}
use sovrin.Cli.Syncing.{send_req_claim_to_target_endpoint}

module _ {g : Signer} where
  -- `_printMoreThanOneLinkFoundForRequest`
  unfoldable pub print_more_than_one_link_found_for_request :
      String → List String → Exec (Shell g) Unit
  unfolding print print_all
  print_more_than_one_link_found_for_request name link_names = do
    print (cat ("More than one link matches \"" ∷ name ∷ "\"" ∷ []))
    print_all link_names

module _ {A : Type 0} where
  abbrev link_names : List (Link × A) → List String
  link_names = map (λ (m : Link × A). m.0.name)

module _ {g : Signer} {A : Type 0} where
  -- What `_getOneLinkAndClaimReq`, `_getOneLinkAndAvailableClaim` and `_getOneLinkAndReceivedClaim`
  -- share: the text for no match, and whether to print.
  unfoldable pub get_one :
      (no_match : String)
      → (print_msgs : Bool) → String
      → List (Link × A)
      → Exec (Shell g) (Option (Link × A))
  unfolding print print_more_than_one_link_found_for_request
  get_one no_match print_msgs name [] = do if print_msgs then print no_match else pure tt; pure none
  get_one no_match print_msgs name (m ∷ []) = pure (some m)
  get_one no_match print_msgs name (m ∷ n ∷ ms) = do
    if print_msgs
        then print_more_than_one_link_found_for_request name (link_names (m ∷ n ∷ ms))
        else pure tt
    pure none

abbrev no_claim_found : String
no_claim_found = "No matching claim(s) found in any links in current keyring"

module _ {g : Signer} (x : Terminal g) where
  -- `_getOneLinkAndAvailableClaim`
  unfoldable pub get_one_link_and_available_claim :
      (print_msgs : Bool) → String → Exec (Shell g) (Option (Link × AvailableClaim))
  unfolding get_one get_matching_links_with_available_claim
  get_one_link_and_available_claim print_msgs name = do
    ms ← gets (λ s. get_matching_links_with_available_claim x.lower x.is_in name s.links)
    get_one no_claim_found print_msgs name ms

  -- `_getOneLinkAndReceivedClaim`
  unfoldable pub get_one_link_and_received_claim :
      (print_msgs : Bool) → String → Exec (Shell g) (Option (Link × ReceivedClaim))
  unfolding get_one get_matching_links_with_received_claim
  get_one_link_and_received_claim print_msgs name = do
    ms ← gets (λ s. get_matching_links_with_received_claim x.lower x.is_in name s.links)
    get_one no_claim_found print_msgs name ms

  abbrev found_claim : String → Link → Exec (Shell g) Unit
  found_claim name li = print (cat ("Found claim " ∷ name ∷ " in link " ∷ li.name ∷ []))

  -- the issuer key is asked for, which prepares its request, but it is not submitted
  abbrev ask_for_definition : Link → ClaimDefKey → Option Value → Exec (Shell g) Unit
  ask_for_definition li key (some cd) = pure tt
  ask_for_definition li key none = do
    connected ← gets is_connected_to_any_env
    if connected
        then (do
          print "Getting Claim Definition from Sovrin..."
          on_wallet (request_issuer_key x.outer g (some key.1.1.1, key.1.1.0) (some li.verkey))
          pure tt)
        else print_not_connected_env_message x

  abbrev request_from : String → Option (Link × AvailableClaim) → Exec (Shell g) Unit
  request_from name none = print no_claim_found
  request_from name (some (li, c)) = do
    found_claim name li
    cd ← gets (λ s. lookup c.claim_def_key s.claim_defs)
    ask_for_definition li c.claim_def_key cd
    print (cat ("Requesting claim " ∷ name ∷ " from " ∷ li.name ∷ "..." ∷ []))
    send_req_claim_to_target_endpoint x li c.claim_def_key

  -- `_reqClaim`
  unfoldable pub req_claim : String → Exec (Shell g) Unit
  unfolding get_one_link_and_available_claim print print_not_connected_env_message
      request_issuer_key send_req_claim_to_target_endpoint lookup
  req_claim name = do found ← get_one_link_and_available_claim true name; request_from name found

  abbrev show_received : String → Option (Link × ReceivedClaim) → Exec (Shell g) Bool
  show_received name none = pure false
  show_received name (some (li, c)) = do
    found_claim name li
    print (received_claim_str x.printer c)
    pure true

  -- `_showReceivedClaimIfExists`: whether there is one
  unfoldable pub show_received_claim_if_exists : String → Exec (Shell g) Bool
  unfolding received_claim_str get_one_link_and_received_claim print
  show_received_claim_if_exists name = do
    found ← get_one_link_and_received_claim false name
    show_received name found

  abbrev show_definition : Option Value → Exec (Shell g) Unit
  show_definition none = pure tt
  show_definition (some cd) = do text ← lift (claim_def_info_str x.printer cd); print text

  abbrev show_available : String → Option (Link × AvailableClaim) → Exec (Shell g) Unit
  show_available name none = print no_claim_found
  show_available name (some (li, c)) = do
    found_claim name li
    print (available_claim_str x.printer c)
    cd ← gets (λ s. lookup c.claim_def_key s.claim_defs)
    show_definition cd
    print_suggestion (req_claim_usage (some name) ∷ [])

  -- `_showAvailableClaimIfExists`
  unfoldable pub show_available_claim_if_exists : String → Exec (Shell g) Unit
  unfolding available_claim_str claim_def_info_str get_one_link_and_available_claim print
      print_suggestion lookup
  show_available_claim_if_exists name = do
    found ← get_one_link_and_available_claim false name
    show_available name found

  -- `_showReceivedOrAvailableClaim`, `_showClaim`
  unfoldable pub show_claim : String → Exec (Shell g) Unit
  unfolding show_received_claim_if_exists show_available_claim_if_exists
  show_claim name = do
    shown ← show_received_claim_if_exists name
    if shown then pure tt else show_available_claim_if_exists name
