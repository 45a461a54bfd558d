-- ===== src/Lib.antt =====
-- cagent, the cluster agent of this repository (cagent/src/cagent_api): an HTTP service that takes
-- requests from the nodes and the operator of a cluster, keeps them and their evidence, and runs each
-- as one turn of a language model.
--
-- The parts and their files, with paths from cagent/src/cagent_api:
--   * Ledger, for ledger.py: the log of certificate events (Ledger/Log), the methods, the standing of
--     a serial read backwards (Ledger/Standing), and what the methods change (Ledger/Changes).
--   * Evidence, for evidence.py: one directory per request, with its record and its events.
--   * Store, for store.py: identities (Store/Owner), the data (Store/Model), the methods (Store), and
--     the scan at start-up (Store/Scan). Store/WellFormed and Store/Durable hold the two invariants,
--     Store/Runs the runs of a process as an indexed data type, Store/Rescan and Store/Recovery the restart,
--     Store/Restarts a restart after a restart.
--   * Auth, for auth.py and node_resolver.py: the authenticators of the three listeners.
--   * Worker, for worker.py: the queue, the cancel flags and one turn of the loop; Worker/Task is
--     compose_task of agent_runner.py.
--   * Server, for server.py: the routes (Server/Routes) and the handlers, what they leave alone
--     (Server/Laws), whom they answer (Server/Privacy), and the queue that they share with the
--     worker (Server/Waiting, Server/Queue), and what is written back (Server/Response).
--   * Process, for main.py with worker.py and server.py: one store behind three entrances, each with a
--     worker, and the steps of all of them in any order. Process/Handled and Process/Turns say what a
--     POST and the halves of a turn and of a cancel do to the requests, Process/Halves that the halves are
--     the whole; Process/Turning has the invariants, Process/Fair and Process/Written what keeps them,
--     Process/Waiting the steps, Process/Lifecycle the ended requests, and Process/Opening the start.
--   * Nctl, for readonly_nctl.py and cli.py: shlex (Nctl/Shlex), the list of what is allowed
--     (Nctl/Surface), the command (Nctl/Cli), and their laws.
--   * Runner, for agent_runner.py: the outcomes of a turn and the tools of a door; Runner/Destroy is the
--     guard on shell commands, Runner/Spelled and Runner/Squeezed what it finds, Runner/Building how a runner is made and what it calls, Runner/Specs the
--     specifications of its tools.
--   * ChangeRecord, for change_record.py: the notes of a conversation (ChangeRecord/Notes), the names of
--     topics (ChangeRecord/Names) and register_change (ChangeRecord/Register); ChangeRecord/Again and ChangeRecord/Once are about
--     two registrations from one conversation, where ChangeRecord/Again has the laws of a Zulip.
--   * Incident, for incident.py: a report as a text file. Incident/Slug is slugify, Incident/Reading the
--     way back, Incident/Commands the command line and the two tools of agent_runner.py. FreeName,
--     OneLine, Frontmatter, RoundTrip and Listing hold the proofs.
--   * Ca, for ca.py: the certificates, with the text of a serial number in Ca/Serial; Ca/Commands, for
--     ca_cli.py, and Ca/Main, for its options and what it prints; Ca/Enrolment leads from a signed CSR to the node's first accepted call.
--   * Window, for zulip_window.py: the chat texts and the wait for a request; Window/Reply is what is sent
--     for one direct message, Window/Listener the choice of handlers.
--   * Topics, for role_run.py and topics_serve.py: what a role is run with, the two handoffs of a
--     serving, and what a posted answer means; Topics/Serving is serve, as the effects of one serving.
--   * Argue, for argue.py: the run in an argue.
--   * Startup, for main.py: what has to be there before the doors open.
--   * Ledger/Console with Ledger/Main, and Evidence/Console, for ledger_cli.py and evidence_cli.py; Runner/Contexts, for
--     contexts_tool of agent_runner.py.
--   * Prelude holds the shared names: lists, an insertion-ordered dict, sorting, text, lines, digits,
--     and results.
--   * Examples applies the theorems to concrete runs.
-- A handler calls the store and the queue; the worker calls the store and the runner; the store
-- writes the evidence, and the scan reads it back. The node listener asks the ledger, where the
-- certificates of the CA are registered. The chat window is a client of the window's door.
--
-- Conventions. Every method is a function from a state to a result and a state; a method of Store
-- holds the lock, so it is one step. An exception is a value. A Python dict is a list of pairs in the
-- order of insertion. Text is native text; its blanks and line breaks are Python's (Prelude/Lines),
-- and lower is that of ASCII text, or an argument where other letters matter (Incident,
-- Runner/Destroy, where the word characters of `re` are one too). A time is a clock reading, one for
-- each call, and costs are natural numbers. The hex of uuid4 is an argument; that it is not in use yet
-- is a named hypothesis where it matters. JSON on disk is the value that it encodes. A turn of the
-- worker (Worker) takes the runner and what the handlers do meanwhile as arguments; in Process a turn
-- is three steps (it reads, it marks, it writes what the runner gave) and a cancel two, and the steps
-- of all others stand between. A handler that makes one call of the store is one step, the enqueue
-- behind it included. The texts of error messages are kept only where code reads them.
--
-- Fuel stands in four places, each with a bound that is enough. Decimal and hexadecimal digits take the
-- number itself and one more, since a number has no more digits. The search for a free file name takes
-- one try more than there are files. The wait of the chat window takes a third of its timeout in seconds
-- and two tries, as it sleeps three seconds between tries. Every other loop is structural recursion.
--
-- Not modelled: failures of the disk, an end of the process inside a write, TLS, sockets, and the
-- language model and its tools. agag, shlex's host, argparse and the cryptography library are not part
-- of the repository; shlex is written out from its documented grammar, and a certificate is the fields
-- that the CA sets.
pub mod Prelude
pub mod Ledger
pub mod Evidence
pub mod Store
pub mod Auth
pub mod Worker
pub mod Server
pub mod Nctl
pub mod Runner
pub mod Ca
pub mod Incident
pub mod ChangeRecord
pub mod Window
pub mod Topics
pub mod Argue
pub mod Startup
pub mod Process
pub mod Examples
