-- ===== src/Cli/Syncing/Offline.antt =====
-- What a command that accepts or synchronises a link leaves alone without a network.
use sovrin.Prelude.{
  ◌≡◌, refl, none, some, Option, ℕ, List, Bool, false, ap, if◌then◌else◌, String, inl, inr,
  Bool-cases,
}
use sovrin.Python.Value.{Object}
use sovrin.Python.Result.{Result, ok, err, or_raise, attribute_error}
use sovrin.Python.Exec.{lift, gets, ◌>>=◌}
use sovrin.Links.{Link, is_accepted, is_remote_endpoint_available}
use sovrin.Wallet.{Signer}
use sovrin.Cli.{
  Terminal, Shell, is_connected_to_any_env, print, print_connect_usage, print_usage, print_all,
  print_not_connected_env_message,
}
use sovrin.Cli.Syncing.{
  accept_online, accept_offline, is_never, accept_found, send_accept_invite_to_target_endpoint,
  send_req_to_target_endpoint, send_to_agent, the_agent,
}

module _ {g : Signer} (x : Terminal g) where
  -- nothing but what is printed differs
  abbrev pub OnlyPrints : Shell g → Shell g → Type 0
  OnlyPrints s t = record t { printed = s.printed } ≡ s

  send_to_agent-none :
      (msg : Object) (end_point : String × ℕ) (s : Shell g)
      → s.active_env ≡ none
      → OnlyPrints s (send_to_agent x msg end_point s).1
  unfolding send_to_agent the_agent print_not_connected_env_message print_connect_usage print_usage
      print_all print
  send_to_agent-none msg end_point s absent = rw absent refl

  at_address-none :
      (address : Result (String × ℕ)) (msg : Object) (s : Shell g)
      → s.active_env ≡ none
      → OnlyPrints s ((lift address >>= send_to_agent x msg) s).1
  at_address-none (ok a) msg s absent = send_to_agent-none msg a s absent
  at_address-none (err e) msg s absent = refl

  at_end_point-none :
      (given : Option String) (msg : Object) (s : Shell g)
      → s.active_env ≡ none
      → let send = λ (e : String). lift (x.end_point_of e) >>= send_to_agent x msg in
        OnlyPrints s ((lift (or_raise attribute_error given) >>= send) s).1
  at_end_point-none none msg s absent = refl
  at_end_point-none (some e) msg s absent = at_address-none (x.end_point_of e) msg s absent

  send_accept_invite-none :
      (li : Link) (s : Shell g)
      → s.active_env ≡ none
      → OnlyPrints s (send_accept_invite_to_target_endpoint x li s).1
  unfolding send_accept_invite_to_target_endpoint send_req_to_target_endpoint
  send_accept_invite-none li s absent = at_end_point-none li.remote_end_point _ s absent

  accept_offline-none :
      (li : Link) (s : Shell g) → s.active_env ≡ none → OnlyPrints s (accept_offline x li s).1
  unfolding print print_not_connected_env_message print_connect_usage print_usage print_all
  accept_offline-none li s absent = elim (Bool-cases (is_remote_endpoint_available li)) [
    | inl h ↦ rw h (send_accept_invite-none li s absent)
    | inr h ↦ rw h refl
  ]

  not_connected : (s : Shell g) → s.active_env ≡ none → is_connected_to_any_env s ≡ false
  not_connected s absent = rw absent refl

  by_connection-none :
      (li : Link) (s : Shell g)
      → s.active_env ≡ none
      → let next = λ (b : Bool). if b then accept_online x li else accept_offline x li in
        OnlyPrints s ((gets is_connected_to_any_env >>= next) s).1
  by_connection-none li s absent = rw (not_connected s absent) (accept_offline-none li s absent)

  after_print-none :
      (li : Link) (printed : List String) (s : Shell g)
      → s.active_env ≡ none
      → let next = λ (b : Bool). if b then accept_online x li else accept_offline x li in
        let t : Shell g = record s { printed = printed } in
        OnlyPrints s ((gets is_connected_to_any_env >>= next) t).1
  after_print-none li printed s absent =
      ap (λ (u : Shell g). record u { printed = s.printed })
        (by_connection-none li (record s { printed = printed }) absent)

  -- A command line without an environment that accepts an invitation only prints: nothing is sent to
  -- an agent, submitted or waited for, and the keyring and its links stay, whether the link is
  -- accepted already, has an end point or has none, and whether the command returns or raises.
  pub accept_found-OnlyPrints :
      (li : Link) (s : Shell g) → s.active_env ≡ none → OnlyPrints s (accept_found x li s).1
  unfolding accept_found print send_accept_invite_to_target_endpoint send_req_to_target_endpoint
      send_to_agent the_agent print_not_connected_env_message print_connect_usage print_usage
      print_all
  accept_found-OnlyPrints li s absent = elim (Bool-cases (is_accepted li)) [
    | inl h ↦ rw h refl
    | inr h ↦ elim (Bool-cases (is_never li.link_last_synced)) [
      | inl n ↦ rw (h, n) (after_print-none li _ s absent)
      | inr n ↦ rw (h, n) (after_print-none li _ s absent)
    ]
  ]
