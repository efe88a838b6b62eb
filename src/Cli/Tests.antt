-- ===== src/Cli/Tests.antt =====
-- The theorems on the command line at a keyring with one identifier, two links and a network.
use sovrin.Prelude.{
  ◌≡◌, refl, String, true, false, none, some, List, [], ◌∷◌, if◌then◌else◌, String-Eq, Option-Eq,
  ◌==◌, arith,
}
use sovrin.Python.Dict.{lookup, contains}
use sovrin.Python.Value.{Value, str, obj, Object, Fields, end, field, to_dict, get}
use sovrin.Python.Result.{ok, err, type_error}
use sovrin.Python.Exec.{◌>>◌}
use sovrin.Txn.Names
use sovrin.Links.Printing.{Printer}
use sovrin.Links.{get_link_by_nonce, since, Link, get_matching_link_invitations, is_accepted}
use sovrin.Wallet.{Wallet}
use sovrin.Wallet.Items.{Identity}
use sovrin.Wallet.Tests.{counter, two_pending}
use sovrin.Wallet.Replies.{Outer}
use sovrin.Agent.{verify_sig}
use sovrin.Agent.Invitations.Accepted.{nym_draft}
use sovrin.Agent.Invitations.Tests.{trusting, fresh, link as inviting}
use sovrin.Agent.Responses.{handle_endpoint_message}
use sovrin.Agent.Responses.Tests.{setting}
use sovrin.Cli.Syncing.Sponsored.{handle_endpoint_message-accepted}
use sovrin.Cli.{Terminal, Shell}
use sovrin.Cli.Choice.{get_invitation_matching_links, get_one_link_for_further_processing}
use sovrin.Cli.Choice.Exact.{get_one_link_for_further_processing-exact}
use sovrin.Cli.Invitation.{Invitation, parse_invitation}
use sovrin.Cli.Loading.{load_text, invited}
use sovrin.Cli.Loading.Twice.{load_text-twice, own_name}
use sovrin.Cli.ClaimRequests.{Match, attributes_with_value}
use sovrin.Cli.ClaimRequests.Shown.{attributes_with_value-last, from_match, last_match}
use sovrin.Cli.Showing.{show_link}
use sovrin.Cli.Showing.Stale.{show_link-stale}
use sovrin.Cli.Callbacks.{next_call}
use sovrin.Cli.Syncing.{accept_found, received_end_point}
use sovrin.Cli.Syncing.Accepting.{accept_found-completed, signed_acceptance, synced}
use sovrin.Cli.Syncing.Offline.{OnlyPrints, accept_found-OnlyPrints}

abbrev link : Link
link = record {
  name = "Acme Corp";
  local_identifier = "cid-1:Alice";
  verkey = "Alice";
  trust_anchor = some "Acme Corp";
  remote_identifier = some "Acme-id";
  remote_end_point = none;
  nonce = "b1134a";
  invitation_data = none;
  claim_requests = [];
  available_claims = [];
  received_claims = [];
  target_verkey = none;
  link_status = none;
  link_last_synced = none;
  link_last_sync_no = none;
}

abbrev bob : Identity
bob = record { identifier = "Bob"; sponsor = none; role = none; last_synced = none; seq_no = none }

abbrev plain : Printer
plain = record {
  to_str = λ n. "2";
  value_text = λ v. "value";
  join = λ separator texts. separator;
  split_lines = λ t. t ∷ [];
  elapsed = λ t. since 0 5;
}

abbrev outside : Outer
outside = record {
  json_loads = λ t. none;
  now = 0;
  split = λ t. t ∷ [];
  join = λ ts. "";
  to_str = λ n. "1";
  to_integer = λ v. ok 1;
}

abbrev invitation_fields : Fields
invitation_fields =
    field "name" (str "Acme")
      (field "identifier" (str "Acme-id") (field "nonce" (str "57fbf9dc8c") end))

abbrev invitation : Fields
invitation = field "link-invitation" (obj invitation_fields) (field "sig" (str "sig") end)

abbrev end_point_fields : Fields
end_point_fields = field "endpoint" (str "10.0.0.1:5555") end

abbrev acme : Invitation
acme = record {
  name = "Acme";
  identifier = "Acme-id";
  end_point = none;
  nonce = "57fbf9dc8c";
  claim_requests = [];
}

abbrev loads : String → Value
loads t = if t == "invitation" then obj invitation else obj end_point_fields

abbrev simple : Terminal counter
simple = record {
  lower = λ s. s;
  is_in = λ s t. s == t;
  unquote = λ s. s;
  last_part = λ s. s;
  end_point_of = λ e. ok (e, 5555);
  path_exists = λ p. true;
  read = λ p. p;
  cur_dir_path = "";
  json_loads = λ t. some (loads t);
  now = 7;
  random_name = "name";
  random_id = "id";
  upper = λ s. s;
  literal_eval = λ s. ok (str s);
  fresh_nonce = "nonce";
  outer = outside;
  get_cryptonym = λ s. s;
  env_names = "test|live";
  has_any_key = λ c. (true, []);
  add_signer = λ alias c. (alias, c);
  sign_msg = λ c op identifier. "signature";
  printer = plain;
}

abbrev own_wallet : Wallet counter
own_wallet = record two_pending { pending = []; sponsored = ("Bob", bob) ∷ [] }

abbrev online : Shell counter
online = record {
  wallet = own_wallet;
  links = ("Acme Corp", link) ∷ [];
  claim_defs = [];
  active_env = some "test";
  connected = true;
  agent_started = false;
  context = none;
  genesis = [];
  printed = [];
  submitted = [];
  to_agents = [];
  waiting = [];
}

abbrev offline : Shell counter
offline = record online { active_env = none }

abbrev reply : Object
reply = (Names.data_key, str "data") ∷ []

-- with three links whose names match, the one that is named exactly is not chosen
abbrev broad : Terminal counter
broad = record simple { is_in = λ s t. true }

abbrev three_links : Shell counter
three_links = record online {
  links =
      ("Acme", record link { name = "Acme" })
      ∷ ("Acme Corp", link)
      ∷ ("Acme Inc", record link { name = "Acme Inc" })
      ∷ [];
}

get_one_link_for_further_processing-exact_example :
    (get_one_link_for_further_processing broad "Acme" three_links).0 ≡ ok none
unfolding get_invitation_matching_links get_matching_link_invitations
get_one_link_for_further_processing-exact_example =
    get_one_link_for_further_processing-exact broad "Acme" three_links
      (record link { name = "Acme" }) refl

-- a link that was synchronised eight days ago
abbrev week_later : Terminal counter
week_later = record simple { printer = record plain { elapsed = λ t. since 8 0 } }

show_link-stale_example : show_link week_later "Acme Corp" online ≡ (err type_error, online)
unfolding get_invitation_matching_links get_matching_link_invitations
show_link-stale_example =
    show_link-stale week_later "Acme Corp" link 8 0 online refl refl refl (omega arith)
      (omega arith)

accept_found-completed_example :
    let (r, s') = (accept_found simple link >> next_call simple (λ n. (some reply, none))) online in
    (r ≡ ok tt)
    × (s'.to_agents
        ≡ (signed_acceptance simple 4 (synced simple "10.0.0.1:5555" link), ("10.0.0.1:5555", 5555))
          ∷ [])
    × (s'.waiting ≡ [])
    × (lookup "Acme Corp" s'.links ≡ some (synced simple "10.0.0.1:5555" link))
unfolding lookup is_accepted received_end_point get
accept_found-completed_example =
    accept_found-completed simple link "test" online refl refl refl refl refl refl "10.0.0.1:5555"
      ("10.0.0.1:5555", 5555) reply (λ n. (some reply, none)) refl refl refl refl refl

accept_found-OnlyPrints_example : OnlyPrints simple offline (accept_found simple link offline).1
accept_found-OnlyPrints_example = accept_found-OnlyPrints simple link offline refl

load_text-twice_example :
    let (r, s') = load_text simple "invitation" online in
    let (r', s'') = load_text simple "invitation" s' in
    (r ≡ ok tt)
    × (lookup "Acme" s'.links ≡ some (invited simple (to_dict invitation) acme (own_name simple 3)))
    × ((m : String) → ("Acme" == m) ≡ false → lookup m s'.links ≡ lookup m online.links)
    × (s'.submitted ≡ [])
    × (s'.to_agents ≡ [])
    × (r' ≡ ok tt)
    × OnlyPrints simple s' s''
unfolding parse_invitation lookup get get_matching_link_invitations
load_text-twice_example =
    load_text-twice simple "invitation" invitation invitation_fields acme online refl refl refl refl

attributes_with_value-last_example :
    ((m : Match) (ms : List Match)
      → lookup "name"
          (attributes_with_value (("name", str "") ∷ ("salary", str "") ∷ []) (m ∷ ms) [])
        ≡ some (from_match "name" (str "") (last_match m ms)))
    × (attributes_with_value (("name", str "") ∷ ("salary", str "") ∷ []) [] [] ≡ [])
unfolding contains
attributes_with_value-last_example =
    attributes_with_value-last "name" (str "") [] (("salary", str "") ∷ []) refl

-- the agent has a link with the nonce of the command line's one
handle_endpoint_message-accepted_example :
    let message = signed_acceptance simple 4 link in
    let q = (counter.sign_request 3 (nym_draft counter fresh "Alice")).0 in
    let (r, b) = handle_endpoint_message trusting setting counter message "alice" fresh in
    (r ≡ ok tt)
    × (b.submitted ≡ q ∷ [])
    × ((li' : Link) × (b.waiting ≡ (q.req_id, (li', "alice")) ∷ []))
    × (b.own.sent ≡ [])
    × (contains "Alice" b.wallet.sponsored ≡ true)
unfolding contains get_link_by_nonce verify_sig
handle_endpoint_message-accepted_example =
    handle_endpoint_message-accepted simple trusting setting counter 4 link inviting fresh "alice"
      "127.0.0.1" refl refl refl refl refl
