-- ===== src/Cli/Showing.antt =====
-- The command that shows a link, `_showLink`, and the connection to a network: `canConnectToEnv`,
-- `_connectTo`, `getStatus` and `_setPrompt`.
pub mod Stale
use sovrin.Prelude.{
  cat, ℕ, zero, suc, String, Bool, true, false, Option, none, some, List, [], ◌∷◌, map,
  if◌then◌else◌, String-Eq, ◌==◌,
}
use sovrin.Python.Dict.{values}
use sovrin.Python.Exec.{Exec, pure, lift, gets, ◌>>=◌, ◌>>◌}
use sovrin.Links.{Link, AvailableClaim, name_of, is_accepted}
use sovrin.Links.Printing.{link_str}
use sovrin.Wallet.{Signer}
use sovrin.Cli.{
  Terminal, Shell, print, print_no_link_found_msg, print_sync_and_accept_usage, print_suggestion,
  print_show_and_req_claim_suggestion, print_not_connected_env_message,
}
use sovrin.Cli.Choice.{
  Matches, get_invitation_matching_links, total_found, get_one_link,
  print_more_than_one_link_found_msg,
}

module _ {g : Signer} (x : Terminal g) where
  abbrev claim_names : Link → List String
  claim_names li =
      map (λ (c : AvailableClaim). name_of c.claim_def_key) (values li.available_claims)

  abbrev show_one : String → Link → Exec (Shell g) Unit
  show_one name li = do
    if li.name == name
        then pure tt
        else print (cat ("Expanding " ∷ name ∷ " to \"" ∷ li.name ∷ "\"" ∷ []))
    text ← lift (link_str x.printer li)
    print text
    if is_accepted li
        then print_show_and_req_claim_suggestion x (claim_names li)
        else print_sync_and_accept_usage li.name

  abbrev show_matches : String → Matches → (total : ℕ) → Exec (Shell g) Unit
  show_matches name m zero = print_no_link_found_msg
  show_matches name m (suc zero) = do li ← lift (get_one_link m); show_one name li
  show_matches name m (suc (suc n)) = print_more_than_one_link_found_msg x name m

  -- `_showLink`, of a name without its quotes
  unfoldable pub show_link : String → Exec (Shell g) Unit
  unfolding link_str get_invitation_matching_links total_found get_one_link print
      print_no_link_found_msg print_more_than_one_link_found_msg is_accepted print_suggestion
  show_link name = do
    m ← gets (λ s. get_invitation_matching_links x (x.unquote name) s.links)
    show_matches name m (total_found m)

  abbrev status : Option String → (connected : Bool) → Exec (Shell g) Unit
  status none connected = print_not_connected_env_message x
  status (some e) true = print (cat ("Connected to " ∷ e ∷ " Sovrin network" ∷ []))
  status (some e) false = print (cat ("Attempting connection to " ∷ e ∷ " Sovrin network" ∷ []))

  -- `getStatus`
  unfoldable pub get_status : Exec (Shell g) Unit
  unfolding print print_not_connected_env_message
  get_status = do
    env ← gets (λ s. s.active_env)
    connected ← gets (λ s. s.connected)
    status env connected
