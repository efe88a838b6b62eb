-- ===== src/Node/Queries/Readonly.antt =====
-- What a query does to a node: nothing but messages to the client that asks.
use sovrin.Prelude.{String, ◌≡◌, refl, List, [], ◌∷◌, ◌++◌, map, ◌∙◌, ap, sym}
use mathlib.Core.List.{append-nil, append_assoc}
use sovrin.Python.Result.{Result}
use sovrin.Python.Exec.Relates.{IsPreorder, Relates, relates_rules}
use sovrin.Signing.{Request}
use sovrin.Graph.Db.{OrientDb}
use sovrin.Node.Env.{Plenum, Ledger, Message}
use sovrin.Node.Execution.{NodeState, transmit_to_client}
use sovrin.Node.Queries.{
  query, process_get_nym_req, process_get_cred_def_req, process_get_attrs_req,
  process_get_issuer_key_req,
}

module _ (p : Plenum) (db : OrientDb) (l : Ledger) (frm : String) where
  abbrev addressed : List Message → List (String × Message)
  addressed = map (λ (m : Message). (frm, m))

  -- Only messages to the client `frm` were sent between the two states.
  pub record Answers (s t : NodeState p db l) : Type 0 where
    pub graph : t.graph ≡ s.graph
    pub log : t.log ≡ s.log
    pub senders : t.request_sender ≡ s.request_sender
    pub messages : (ms : List Message) × (t.sent ≡ s.sent ++ addressed ms)

  addressed-append : (ms ns : List Message) → addressed (ms ++ ns) ≡ addressed ms ++ addressed ns
  addressed-append [] ns = refl
  addressed-append (m ∷ ms) ns =
      ap (λ (r : List (String × Message)). (frm, m) ∷ r) (addressed-append ms ns)

  pub Answers-preorder : IsPreorder Answers
  Answers-preorder = record {
    same = λ s. record {
      graph = refl;
      log = refl;
      senders = refl;
      messages = ([], sym (append-nil s.sent));
    };
    chain = λ s t u a b. record {
      graph = b.graph ∙ a.graph;
      log = b.log ∙ a.log;
      senders = b.senders ∙ a.senders;
      messages = joined s t u a.messages b.messages;
    };
  }
    where
      joined :
          (s t u : NodeState p db l)
          → ((ms : List Message) × (t.sent ≡ s.sent ++ addressed ms))
          → ((ms : List Message) × (u.sent ≡ t.sent ++ addressed ms))
          → (ms : List Message) × (u.sent ≡ s.sent ++ addressed ms)
      joined s t u (ms, e) (ns, f) = (
        ms ++ ns,
        f
            ∙ ap (λ (r : List (String × Message)). r ++ addressed ns) e
            ∙ append_assoc s.sent (addressed ms) (addressed ns)
            ∙ ap (λ (r : List (String × Message)). s.sent ++ r) (sym (addressed-append ms ns)),
      )

  pub transmit-Answers : (m : Message) → Relates Answers (transmit_to_client p db l m frm)
  unfolding transmit_to_client
  transmit-Answers m = record {
    at = λ s. record { graph = refl; log = refl; senders = refl; messages = (m ∷ [], refl) };
  }

  pub query-Answers : {A : Type 0} (q : db.Store → Result A) → Relates Answers (query p db l q)
  query-Answers q = record { at = Answers-preorder.same }

  pub ruleset answers_rules = (relates_rules, Answers-preorder, transmit-Answers, query-Answers)

  pub nym-Answers : (r : Request) → Relates Answers (process_get_nym_req p db l r frm)
  unfolding process_get_nym_req
  nym-Answers r = search answers_rules depth 12

  pub cred_def-Answers : (r : Request) → Relates Answers (process_get_cred_def_req p db l r frm)
  unfolding process_get_cred_def_req
  cred_def-Answers r = search answers_rules depth 16

  pub attrs-Answers : (r : Request) → Relates Answers (process_get_attrs_req p db l r frm)
  unfolding process_get_attrs_req
  attrs-Answers r = search answers_rules depth 16

  pub issuer_key-Answers : (r : Request) → Relates Answers (process_get_issuer_key_req p db l r frm)
  unfolding process_get_issuer_key_req
  issuer_key-Answers r = search answers_rules depth 14

  -- A query for a nym, a credential definition, attributes or issuer keys changes neither the graph
  -- nor the ledger nor the list of waiting clients, and sends messages to the asking client only,
  -- whether its handler returns or raises.
  pub query-is_readonly :
      (r : Request) (s : NodeState p db l)
      → Answers s (process_get_nym_req p db l r frm s).1
        × Answers s (process_get_cred_def_req p db l r frm s).1
        × Answers s (process_get_attrs_req p db l r frm s).1
        × Answers s (process_get_issuer_key_req p db l r frm s).1
  query-is_readonly r s = (
    (nym-Answers r).at s,
    (cred_def-Answers r).at s,
    (attrs-Answers r).at s,
    (issuer_key-Answers r).at s,
  )
