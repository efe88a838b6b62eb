-- ===== src/Lib.antt =====
-- sovrin, an identity ledger: clients send signed requests to the nodes of a pool; a node checks a
-- request, orders it with the others (plenum's part), appends its transaction to the ledger, and
-- keeps a graph of identities in OrientDB, from which it answers queries. A client keeps a wallet
-- of attributes, identities and credential definitions, and the queue of requests to be signed.
--
-- Prelude  the names, tests and lemmas that the modules share
-- Python   dicts in insertion order, JSON-like values, calls that may raise (Result), and methods
--          that change a state and may raise (Exec: what was changed before an exception stays)
-- Txn      sovrin/common/txn.py: keys, types, roles, and the builders of client operations
-- Signing  sovrin/common/types.py (getSigningState) and sovrin/server/client_authn.py
--          (serializeForSig)
-- Secrets  the symmetric encryption of sovrin/common/util.py
-- Graph    sovrin/persistence/identity_graph.py. Graph.Db is OrientDB as an interface: classes of
--          vertices and edges, the unique indexes of the schema, and laws of its commands;
--          Graph.Nyms has addNym, addNymTxnToGraph and the queries on nyms, Graph.Attributes those
--          on attributes, Graph.Creds the credential definitions and issuer keys; Graph.Schema the
--          classes that are created; Graph.Count countTxns; Graph.Replies the transactions that
--          are read back (getTxn, getResultForTxnIds, makeResult); Graph.Registry is the abstract
--          registry of roles that the graph implements; Graph.Memory is a database that meets the
--          interface
-- Node     sovrin/server/node.py. Node.Env has plenum's part and the ledger as an interface, an
--          append-only log whose serializer keeps what is under the keys of getTxnOrderedFields;
--          Node.Checks the validation and the authorization of requests, Node.Execution
--          doCustomAction and what it calls (Node.Execution.World without the clients),
--          Node.Startup the addition of the ledger's transactions to the graph at the start and
--          sequences of ordered requests, Node.Queries the handlers of queries and
--          processRequest, Node.Storage sovrin/persistence/secondary_storage.py
-- Wallet   sovrin/client/wallet/wallet.py; its items (sovrin/client/wallet/attribute.py,
--          sovrin/client/wallet/cred_def.py, sovrin/common/identity.py) in Wallet.Items, issuer
--          keys in Wallet.IssuerKeys, the dispatch of replies in Wallet.Replies, handlers of
--          replies there and in Wallet.Handlers, the requests that synchronise a wallet in
--          Wallet.Sync. Plenum's wallet, which signs the requests and numbers those of each
--          identifier, is the interface Signer
-- Links    sovrin/client/wallet/link.py, the claims of sovrin/client/wallet/claim.py, and the
--          searches over links in sovrin/client/wallet/wallet.py; Links.Printing has their texts
-- Agent    sovrin/agent/agent.py: which link a signed message belongs to, received claims, and the
--          listeners of events; verifySig of sovrin/common/util.py. Agent.Invitations has the side
--          that sponsors an invited agent, Agent.Responses the side that takes the list of claims,
--          and the dispatch of messages, whose types are those of sovrin/agent/msg_types.py
-- Client   sovrin/client/client.py: the observers, and addNymToGraph; Client.Replies is
--          postReplyRecvd, Client.Queries what a client answers from its graph or from its log
--          (sovrin/persistence/client_txn_log.py); Client.ReqRep is
--          sovrin/persistence/client_req_rep_store_orientdb.py, and Client.LastTxns the file of
--          last transactions of sovrin/persistence/client_req_rep_store_file.py; Client.Files the
--          stores sovrin/persistence/attribute_store_file.py and
--          sovrin/persistence/credential_def_store_file.py
-- Cli      sovrin/cli/cli.py: Cli.Choice how a command finds a link, Cli.Loading and Cli.Invitation
--          the invitations that are read from files, Cli.Syncing the synchronisation and the
--          acceptance of a link, Cli.Callbacks the replies that are waited for
--          (sovrin/cli/helper.py), Cli.Requests the commands on nyms and attributes, Cli.Claims
--          and Cli.ClaimRequests those on claims and claim requests, Cli.Showing the texts about a
--          link and the network. plenum's command line is the record Terminal
--
-- A node and a client meet in the transactions: a request that a wallet signs (Wallet) is executed
-- by a node (Node.Execution), its reply goes to the client (Client.Replies), whose observer is the
-- wallet (Wallet.Replies).
--
-- A method that the code defines is a definition with its name in lower case: addNym is add_nym.
-- An operation or a transaction is an Object, a dict from keys to values, because the code reads
-- it by its keys and what it does on a missing key is part of the behaviour. An OrientDB query is
-- a search over the records of a class. Log messages and the texts of exceptions are left out;
-- the reasons of InvalidClientRequest are a data type.
--
-- The hash, JSON, the signing of plenum, its checks, its handler of failures and the database are
-- parameters. The loops run over lists, so that no fuel is needed; Wallet.Draining has the loop of
-- preparePending as it is written, and enough fuel for it is one round more than there are pending
-- requests. A dict's order of iteration is that of insertion; where the code pops a member of a
-- set, the member is a parameter.
--
-- What the driver of OrientDB gives for a property that a record lacks, None or nothing, is a
-- parameter of Graph.Replies. A request that is completed later is kept with what waits for it
-- (Agent.Invitations, Cli.Callbacks), and its completion is a step of its own.
--
-- Not modelled: the network code, which is input and output; the making of keys and the anonymous
-- credentials, which are a cryptographic library's; the construction of nodes, clients and agents
-- with their stores and stacks; of the command line the grammar, the help, the connection to a
-- network and the clients, which call plenum's, and the commands on anonymous credentials.
pub mod Agent
pub mod Cli
pub mod Client
pub mod Graph
pub mod Links
pub mod Node
pub mod Prelude
pub mod Python
pub mod Secrets
pub mod Signing
pub mod Txn
pub mod Wallet
