-- ===== src/Cli/Callbacks.antt =====
-- The event loop of the command line: `ensureReqCompleted` of sovrin/cli/helper.py, and what is done
-- with the replies.
use sovrin.Prelude.{cat, ℕ, String, Option, none, some, List, [], ◌∷◌, String-Eq}
use sovrin.Python.Dict.{lookup}
use sovrin.Python.Value.{Value, Object}
use sovrin.Python.Result.{key_error, attribute_error, assertion, or_raise}
use sovrin.Python.Exec.{Exec, pure, raise, lift, gets, modify, ◌>>=◌, ◌>>◌}
use sovrin.Txn.Names
use sovrin.Links.{Link}
use sovrin.Wallet.Items.{Attribute}
use sovrin.Wallet.{Signer, get_attribute}
use sovrin.Cli.{
  Terminal, Shell, Callback, sync_link, accept_link, nym_added, attribute_added, nym_received,
  print, call_later, print_show_and_accept_link_usage,
}
use sovrin.Cli.Syncing.{sync_link_post_end_point_retrieval, accept_link_post_sync}

module _ {g : Signer} (x : Terminal g) where
  abbrev kept_link : String → Exec (Shell g) Link
  kept_link name = do found ← gets (λ s. lookup name s.links); lift (or_raise key_error found)

  -- the replies to the other requests: `out`, `chk` and `getNymReply`
  abbrev member : String → Object → Exec (Shell g) Value
  member k reply = lift (or_raise key_error (lookup k reply))

  abbrev numbered : Option Attribute → Exec (Shell g) Unit
  numbered none = raise attribute_error
  numbered (some a) = elim a.seq_no [ none ↦ raise assertion | some n ↦ pure tt ]

  -- what is done with a reply, by the name of the callback
  unfoldable pub run_callback : Callback → Object → Option String → Exec (Shell g) Unit
  unfolding lookup sync_link_post_end_point_retrieval accept_link_post_sync get_attribute
  run_callback (sync_link name) reply error = do
    li ← kept_link name
    sync_link_post_end_point_retrieval x (λ (li' : Link). print_show_and_accept_link_usage li'.name)
        li reply error
  run_callback (accept_link name) reply error = do
    li ← kept_link name
    sync_link_post_end_point_retrieval x (accept_link_post_sync x) li reply error
  run_callback nym_added reply error = do
    nym ← member Names.target_nym reply
    print (cat ("Nym " ∷ x.printer.value_text nym ∷ " added" ∷ []))
  run_callback (attribute_added key) reply error = do
    found ← gets (λ s. get_attribute g key s.wallet)
    numbered found
    nym ← member Names.target_nym reply
    print (cat ("Attribute added for nym " ∷ x.printer.value_text nym ∷ []))
  run_callback (nym_received nym) reply error = do
    id ← member Names.txn_id reply
    print (cat ("Transaction id for NYM " ∷ nym ∷ " is " ∷ x.printer.value_text id ∷ []))

  -- `ensureReqCompleted`: without a reply the call is made again later
  abbrev completed : ℕ → Callback → Option Object × Option String → Exec (Shell g) Unit
  completed n callback (none, error) = call_later n callback
  completed n callback (some reply, error) = run_callback callback reply error

  unfoldable pub ensure_req_completed :
      (reply_if_consensus : ℕ → Option Object × Option String) → ℕ → Callback → Exec (Shell g) Unit
  unfolding run_callback call_later
  ensure_req_completed reply_if_consensus n callback = completed n callback (reply_if_consensus n)

  abbrev due : (ℕ → Option Object × Option String) → List (ℕ × Callback) → Exec (Shell g) Unit
  due replies [] = pure tt
  due replies ((n, callback) ∷ rest) = do
    modify (λ s. record s { waiting = rest })
    ensure_req_completed replies n callback

  -- the event loop makes the call that was scheduled first
  unfoldable pub next_call :
      (reply_if_consensus : ℕ → Option Object × Option String) → Exec (Shell g) Unit
  unfolding ensure_req_completed
  next_call replies = do calls ← gets (λ s. s.waiting); due replies calls
