-- ===== src/Cli.antt =====
-- sovrin/cli/cli.py: the commands of the command line that work on the links, claims and requests of
-- a keyring. What plenum's command line does (its prompt, its grammar, its clients) is a parameter,
-- and what a command prints is a list of texts.
pub mod Choice
pub mod Syncing
pub mod Callbacks
pub mod Invitation
pub mod Loading
pub mod Showing
pub mod Requests
pub mod Claims
pub mod ClaimRequests
mod Tests
use sovrin.Prelude.{
  cat, ℕ, ◌+◌, String, Bool, true, false, Option, none, some, List, [], ◌∷◌, ◌++◌, map, length,
  if◌then◌else◌, String-Eq, ◌==◌,
}
use Prim.Native.String.{◌++◌ as append}
use sovrin.Python.Dict.{Dict}
use sovrin.Python.Value.{Value, Object}
use sovrin.Python.Result.{Result, ok, err}
use sovrin.Python.Exec.{Exec, pure, gets, modify, ◌>>=◌, ◌>>◌}
use sovrin.Links.{Link, Links, ClaimDefKey, ClaimRequest, ReceivedClaim, AvailableClaim}
use sovrin.Links.Printing.{Printer}
use sovrin.Wallet.Items.{AttributeKey}
use sovrin.Wallet.{Signed, Signer, Wallet}
use sovrin.Wallet.Replies.{Outer}

-- What the commands take from elsewhere: texts, JSON, the time and a random name, the signers of
-- plenum's wallet, and what the texts of links and claims take.
pub record Terminal (g : Signer) : Type 0 where
  pub lower : String → String
  pub is_in : String → String → Bool
  pub unquote : String → String
  pub last_part : String → String
  pub end_point_of : String → Result (String × ℕ)
  -- the file system, and the directory of sovrin/cli
  pub path_exists : String → Bool
  pub read : String → String
  pub cur_dir_path : String
  pub json_loads : String → Option Value
  pub now : ℕ
  pub random_name : String
  pub random_id : String
  pub upper : String → String
  -- `ast.literal_eval`
  pub literal_eval : String → Result Value
  pub fresh_nonce : String
  -- what the wallet's own handlers take from elsewhere
  pub outer : Outer
  pub get_cryptonym : String → String
  pub env_names : String
  -- plenum's `hasAnyKey`, with the texts that it prints
  pub has_any_key : g.Core → Bool × List String
  pub add_signer : (alias : String) → g.Core → String × g.Core
  pub sign_msg : g.Core → Object → (identifier : String) → String
  pub printer : Printer

-- What happens when a request is completed. A link is named by its name in the keyring, since the
-- callback holds the object that is kept there.
pub data Callback : Type 0 where
  sync_link accept_link : (link_name : String) → Callback
  nym_added : Callback
  attribute_added : AttributeKey → Callback
  nym_received : (nym : String) → Callback

pub record Shell (g : Signer) : Type 0 where
  pub wallet : Wallet g
  pub links : Links
  pub claim_defs : Dict ClaimDefKey Value
  pub active_env : Option String
  -- `activeClient.hasSufficientConnections`
  pub connected : Bool
  pub agent_started : Bool
  -- `curContext`: a link and one of its claim requests, by their names
  pub context : Option (String × String)
  pub genesis : List Object
  pub printed : List String
  pub submitted : List Signed
  pub to_agents : List (Object × (String × ℕ))
  pub waiting : List (ℕ × Callback)

abbrev or_text : String → Option String → String
or_text other none = other
or_text other (some s) = if s == "" then other else s

-- the texts of `_get…Usage`
abbrev pub show_link_usage : Option String → String
show_link_usage n = cat ("show link \"" ∷ or_text "<link-name>" n ∷ "\"" ∷ [])

abbrev pub sync_link_usage : Option String → String
sync_link_usage n = cat ("sync \"" ∷ or_text "<link-name>" n ∷ "\"" ∷ [])

abbrev pub accept_link_usage : Option String → String
accept_link_usage n = cat ("accept invitation from \"" ∷ or_text "<link-name>" n ∷ "\"" ∷ [])

abbrev pub show_claim_usage : Option String → String
show_claim_usage n = cat ("show claim \"" ∷ or_text "<claim-name>" n ∷ "\"" ∷ [])

abbrev pub req_claim_usage : Option String → String
req_claim_usage n = cat ("request claim \"" ∷ or_text "<claim-name>" n ∷ "\"" ∷ [])

abbrev pub show_claim_req_usage : String
show_claim_req_usage = "show claim request \"<claim-request-name>\""

abbrev pub show_file_usage : Option String → String
show_file_usage n = cat ("show " ∷ or_text "<file-path>" n ∷ [])

abbrev pub load_file_usage : Option String → String
load_file_usage n = cat ("load " ∷ or_text "<file-path>" n ∷ [])

-- `printUsageMsgs` under a heading
abbrev headed : String → List String → List String
headed heading msgs = cat ("\n" ∷ heading ∷ []) ∷ map (append "  ") msgs ++ "\n" ∷ []

module _ {g : Signer} where
  unfoldable pub print : String → Exec (Shell g) Unit
  print text = modify (λ s. record s { printed = s.printed ++ text ∷ [] })

  unfoldable pub print_all : List String → Exec (Shell g) Unit
  print_all texts = modify (λ s. record s { printed = s.printed ++ texts })

  -- `printSuggestion` and `printUsage`
  unfoldable pub print_suggestion : List String → Exec (Shell g) Unit
  unfolding print_all
  print_suggestion msgs = print_all (headed "Try Next:" msgs)

  unfoldable pub print_usage : List String → Exec (Shell g) Unit
  unfolding print_all
  print_usage msgs = print_all (headed "Usage:" msgs)

  abbrev pub on_wallet : {A : Type 0} → Exec (Wallet g) A → Exec (Shell g) A
  on_wallet m s = let (r, w) = m s.wallet in (r, record s { wallet = w })

  -- `activeClient.submitReqs`, of a client of the network
  unfoldable pub submit_reqs : List Signed → Exec (Shell g) Unit
  submit_reqs rs = modify (λ s. record s { submitted = s.submitted ++ rs })

  -- `call_later(.2, self._ensureReqCompleted, reqId, …)`
  unfoldable pub call_later : ℕ → Callback → Exec (Shell g) Unit
  call_later n k = modify (λ s. record s { waiting = s.waiting ++ (n, k) ∷ [] })

  -- `_printShowAndAcceptLinkUsage`, `_printSyncAndAcceptUsage`
  abbrev pub print_show_and_accept_link_usage : String → Exec (Shell g) Unit
  print_show_and_accept_link_usage name =
      print_suggestion (show_link_usage (some name) ∷ accept_link_usage (some name) ∷ [])

  abbrev pub print_sync_and_accept_usage : String → Exec (Shell g) Unit
  print_sync_and_accept_usage name =
      print_suggestion (sync_link_usage (some name) ∷ accept_link_usage (some name) ∷ [])

  -- `_printNoLinkFoundMsg`
  unfoldable pub print_no_link_found_msg : Exec (Shell g) Unit
  unfolding print print_suggestion
  print_no_link_found_msg = do
    print "No matching link invitation(s) found in current keyring"
    print_suggestion (show_file_usage none ∷ load_file_usage none ∷ [])

  -- `_isConnectedToAnyEnv`
  abbrev pub is_connected_to_any_env : Shell g → Bool
  is_connected_to_any_env s = elim s.active_env [ none ↦ false | some e ↦ s.connected ]

module _ {g : Signer} (x : Terminal g) where
  -- `_printConnectUsage`
  unfoldable pub print_connect_usage : Exec (Shell g) Unit
  unfolding print_usage
  print_connect_usage = print_usage (cat ("connect <" ∷ x.env_names ∷ ">" ∷ []) ∷ [])

  -- `_printNotConnectedEnvMessage`
  unfoldable pub print_not_connected_env_message : Exec (Shell g) Unit
  unfolding print print_connect_usage
  print_not_connected_env_message = do
    print "Not connected to Sovrin network. Please connect first."
    print_connect_usage

  -- `_printShowAndReqClaimSuggestion`, of the names of the claims
  abbrev pub print_show_and_req_claim_suggestion : List String → Exec (Shell g) Unit
  print_show_and_req_claim_suggestion names =
      let n = some (x.printer.join "|" names) in
      print_suggestion (show_claim_usage n ∷ req_claim_usage n ∷ [])
