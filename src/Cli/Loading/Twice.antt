-- ===== src/Cli/Loading/Twice.antt =====
-- What becomes of an invitation that is loaded, and loaded again.
use sovrin.Prelude.{
  cat, ◌≡◌, refl, String, Bool, true, false, Option, some, List, [], ◌∷◌, arith, String-Eq, ◌==◌,
  eq_refl, ◌+◌, length, ap, ◌∙◌,
}
use sovrin.Python.Dict.{lookup, insert, lookup-insert, lookup-insert_self}
use sovrin.Python.Value.{Value, obj, Object, Fields, to_dict}
use sovrin.Python.Result.{Result, ok, err, ◌>>=◌}
use sovrin.Links.{
  Link, Links, ClaimRequest, new_link, add_link_invitation, get_matching_link_invitations,
}
use sovrin.Wallet.{Signer}
use sovrin.Cli.{Terminal, Shell, print, print_all, print_suggestion}
use sovrin.Cli.Invitation.{Invitation, parse_invitation, item, text_at}
use sovrin.Cli.Loading.{invited, load_invitation, load_text, unless_known}
use sovrin.Cli.Syncing.Offline.{OnlyPrints}

abbrev has_any : List Link → Bool
has_any [] = false
has_any (li ∷ ls) = true

matching-insert :
    (lower : String → String) (is_in : String → String → Bool) (n : String) (li : Link)
    (links : Links)
    → has_any (get_matching_link_invitations lower is_in n (insert n li links)) ≡ true
unfolding get_matching_link_invitations insert
matching-insert lower is_in n li [] = ground (arith, eq_refl n)
matching-insert lower is_in n li ((k, w) ∷ links) =
    ground (arith, eq_refl n, matching-insert lower is_in n li links)

abbrev read_all :
    Result String
    → Result Value
    → Result String
    → Result (Option String)
    → Result String
    → Result (List ClaimRequest)
    → Result Invitation
read_all id sig name end_point nonce requests = do
  i ← id
  q ← sig
  n ← name
  e ← end_point
  c ← nonce
  r ← requests
  ok (record { name = n; identifier = i; end_point = e; nonce = c; claim_requests = r })

read_all-name :
    (id : Result String) (sig : Result Value) (n : Result String) (e : Result (Option String))
    (c : Result String) (r : Result (List ClaimRequest)) (i : Invitation)
    → read_all id sig n e c r ≡ ok i
    → n ≡ ok i.name
read_all-name (ok id) (ok sig) (ok n) (ok e) (ok c) (ok r) i h = cc
read_all-name (err x) sig n e c r i h = cc
read_all-name (ok id) (err x) n e c r i h = cc
read_all-name (ok id) (ok sig) (err x) e c r i h = cc
read_all-name (ok id) (ok sig) (ok n) (err x) c r i h = cc
read_all-name (ok id) (ok sig) (ok n) (ok e) (err x) r i h = cc
read_all-name (ok id) (ok sig) (ok n) (ok e) (ok c) (err x) i h = cc

-- an invitation that can be parsed has the name that is read from it
parse_invitation-name :
    (invitation : Object) (fs : Fields) (i : Invitation)
    → item "link-invitation" invitation ≡ ok (obj fs)
    → parse_invitation invitation ≡ ok i
    → text_at "name" (to_dict fs) ≡ ok i.name
unfolding parse_invitation
parse_invitation-name invitation fs i given parsed =
    read_all-name (text_at "identifier" (to_dict fs)) (item "sig" invitation)
      (text_at "name" (to_dict fs)) _ _ _ i (rw given at parsed)

module _ {g : Signer} (x : Terminal g) where
  unless_known-known :
      (known : List Link) (invitation : Object)
      → has_any known ≡ true
      → unless_known x known invitation ≡ print "Link already exists"
  unless_known-known (li ∷ ls) invitation h = refl
  unless_known-known [] invitation h = cc

  -- the alias and the identifier of the signer that is made for an invitation
  abbrev pub own_name : g.Core → String
  own_name c =
      let alias = cat ("cid-" ∷ x.printer.to_str (length (g.ids c) + 1) ∷ []) in
      cat (alias ∷ ":" ∷ (x.add_signer alias c).0 ∷ [])

  load_text-known :
      (text : String) (ws fs : Fields) (n : String) (s : Shell g)
      → x.json_loads text ≡ some (obj ws)
      → item "link-invitation" (to_dict ws) ≡ ok (obj fs)
      → text_at "name" (to_dict fs) ≡ ok n
      → has_any (get_matching_link_invitations x.lower x.is_in n s.links) ≡ true
      → ((load_text x text s).0 ≡ ok tt) × OnlyPrints x s (load_text x text s).1
  unfolding load_text print print_suggestion print_all
  load_text-known text ws fs n s loaded given named known =
      rw (loaded, given) (rw named (rw (unless_known-known _ (to_dict ws) known) (refl, refl)))

  load_text-new :
      (text : String) (ws fs : Fields) (i : Invitation) (s : Shell g)
      → x.json_loads text ≡ some (obj ws)
      → item "link-invitation" (to_dict ws) ≡ ok (obj fs)
      → parse_invitation (to_dict ws) ≡ ok i
      → get_matching_link_invitations x.lower x.is_in i.name s.links ≡ []
      → let (r, s') = load_text x text s in
        (r ≡ ok tt)
        × (s'.links ≡ insert i.name (invited x (to_dict ws) i (own_name s.wallet.core)) s.links)
        × (s'.submitted ≡ s.submitted)
        × (s'.to_agents ≡ s.to_agents)
  unfolding load_text load_invitation add_link_invitation new_link print print_suggestion print_all
  load_text-new text ws fs i s loaded given parsed unknown =
      rw (loaded, given)
        (rw (parse_invitation-name (to_dict ws) fs i given parsed)
          (rw unknown (rw parsed (refl, refl, refl, refl))))

  -- Loading the text of an invitation that can be read, where no link of the keyring matches its name,
  -- adds a link under that name, with the invitation's nonce and end point and a new identifier of
  -- the keyring's own, and leaves the other links. Loading it again returns too, and only prints.
  pub load_text-twice :
      (text : String) (ws fs : Fields) (i : Invitation) (s : Shell g)
      → x.json_loads text ≡ some (obj ws)
      → item "link-invitation" (to_dict ws) ≡ ok (obj fs)
      → parse_invitation (to_dict ws) ≡ ok i
      → get_matching_link_invitations x.lower x.is_in i.name s.links ≡ []
      → let (r, s') = load_text x text s in
        let (r', s'') = load_text x text s' in
        (r ≡ ok tt)
        × (lookup i.name s'.links ≡ some (invited x (to_dict ws) i (own_name s.wallet.core)))
        × ((m : String) → (i.name == m) ≡ false → lookup m s'.links ≡ lookup m s.links)
        × (s'.submitted ≡ s.submitted)
        × (s'.to_agents ≡ s.to_agents)
        × (r' ≡ ok tt)
        × OnlyPrints x s' s''
  load_text-twice text ws fs i s loaded given parsed unknown =
      let new = load_text-new text ws fs i s loaded given parsed unknown in
      let li = invited x (to_dict ws) i (own_name s.wallet.core) in
      let named = parse_invitation-name (to_dict ws) fs i given parsed in
      let again =
        load_text-known text ws fs i.name (load_text x text s).1 loaded given named
          (rw new.1 (matching-insert x.lower x.is_in i.name li s.links)) in
      (
        new.0,
        ap (lookup i.name) new.1 ∙ lookup-insert_self i.name li s.links,
        λ m other. ap (lookup m) new.1 ∙ lookup-insert i.name m li s.links ∙ rw other,
        new.2,
        new.3,
        again.0,
        again.1,
      )
