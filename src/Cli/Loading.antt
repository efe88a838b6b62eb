-- ===== src/Cli/Loading.antt =====
-- The invitations that the command line reads from files: `_getFilePath`, `_loadFile`,
-- `_loadInvitation` and `_showFile`.
pub mod Twice
use sovrin.Prelude.{
  cat, ℕ, ◌+◌, String, Bool, true, false, Option, none, some, List, [], ◌∷◌, ◌++◌, length,
  if◌then◌else◌, String-Eq,
}
use sovrin.Python.Value.{Value, obj, Object, to_dict}
use sovrin.Python.Result.{Result, ok, err, type_error, value_error, or_raise}
use sovrin.Python.Exec.{Exec, pure, lift, gets, modify, ◌>>=◌, ◌>>◌}
use sovrin.Links.{Link, Links, new_link, add_link_invitation, get_matching_link_invitations}
use sovrin.Wallet.{Signer, Wallet}
use sovrin.Cli.{
  Terminal, Shell, print, print_usage, print_suggestion, show_file_usage, load_file_usage,
  on_wallet, print_show_and_accept_link_usage,
}
use sovrin.Cli.Invitation.{Invitation, parse_invitation, as_dict, item, text_at}

module _ {g : Signer} (x : Terminal g) where
  -- `_getFilePath`
  unfoldable pub get_file_path : String → Option String
  get_file_path given =
      let explicit = cat (x.cur_dir_path ∷ "/../../" ∷ given ∷ []) in
      let implicit = cat (x.cur_dir_path ∷ "/../../sample/" ∷ given ∷ []) in
      if x.path_exists given
      then some given
      else if x.path_exists explicit
      then some explicit
      else if x.path_exists implicit
      then some implicit
      else none

  abbrev new_signer : Exec (Wallet g) String
  new_signer w =
      let alias = cat ("cid-" ∷ x.printer.to_str (length (g.ids w.core) + 1) ∷ []) in
      let (identifier, c) = x.add_signer alias w.core in
      (ok (cat (alias ∷ ":" ∷ identifier ∷ [])), record w { core = c })

  -- the link of an invitation, whose trust anchor is its name
  abbrev pub invited : Object → Invitation → (local_identifier : String) → Link
  invited invitation i local =
      new_link x.last_part x.fresh_nonce i.name local (some i.name) (some i.identifier) i.end_point
        (some i.nonce) i.claim_requests (some invitation)

  -- `_loadInvitation`
  unfoldable pub load_invitation : Object → Exec (Shell g) Unit
  unfolding parse_invitation new_link add_link_invitation print
  load_invitation invitation = do
    i ← lift (parse_invitation invitation)
    print (cat ("1 link invitation found for " ∷ i.name ∷ "." ∷ []))
    local ← on_wallet new_signer
    print (cat ("Creating Link for " ∷ i.name ∷ "." ∷ []))
    print "Generating Identifier and Signing key."
    modify (λ s. record s { links = add_link_invitation (invited invitation i local) s.links })

  abbrev unless_known : (known : List Link) → Object → Exec (Shell g) Unit
  unless_known [] invitation = load_invitation invitation
  unless_known (li ∷ ls) invitation = print "Link already exists"

  abbrev load_named : Object → Value → Exec (Shell g) Unit
  load_named invitation (obj fs) = do
    name ← lift (text_at "name" (to_dict fs))
    known ← gets (λ s. get_matching_link_invitations x.lower x.is_in name s.links)
    unless_known known invitation
    print_show_and_accept_link_usage name
  load_named invitation v = pure tt

  -- the body of `_loadFile`, on the text of the file
  unfoldable pub load_text : String → Exec (Shell g) Unit
  unfolding get_matching_link_invitations load_invitation print print_suggestion
  load_text text = do
    v ← lift (or_raise value_error (x.json_loads text))
    invitation ← lift (as_dict v)
    given ← lift (item "link-invitation" invitation)
    load_named invitation given

  abbrev load_path : Option String → Exec (Shell g) Unit
  load_path none = do
    print "Given file does not exist"
    print_usage (show_file_usage none ∷ load_file_usage none ∷ [])
  load_path (some path) = load_text (x.read path)

  -- `_loadFile`
  unfoldable pub load_file : String → Exec (Shell g) Unit
  unfolding get_file_path load_text print print_usage
  load_file given = load_path (get_file_path given)

  abbrev show_path : String → Option String → Exec (Shell g) Unit
  show_path given none = do
    print "Given file does not exist"
    print_usage (show_file_usage none ∷ [])
  show_path given (some path) = do
    print (x.read path)
    print_suggestion (load_file_usage (some given) ∷ [])

  -- `_showFile`
  unfoldable pub show_file : String → Exec (Shell g) Unit
  unfolding get_file_path print print_usage print_suggestion
  show_file given = show_path given (get_file_path given)
