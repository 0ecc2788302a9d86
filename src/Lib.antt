-- ===== src/Lib.antt =====
-- A model of the core of Reqable-Mcp, the daemon that lets a language model watch and change the
-- traffic of the Reqable proxy. An addon in the proxy asks the daemon, over a local socket, which
-- rules apply to each request and response; tools add and remove rules; captured traffic is read
-- from Reqable's ObjectBox database and offered to tools that wait for it.
--
-- Rules models src/reqable_mcp/rules.py. `Rule`, `matches`, `to_addon_payload`, `is_expired` stand
-- in Rules; `Rule.to_dict` and `Rule.from_dict` in Rules/Record; `RuleEngine` in Rules/Engine and
-- Rules/Report, where `add` is made of `checked_rule` (the checks before the lock) and `install`
-- (the part under it). The state is the rules in memory in the order of their insertion, as a
-- Python dict keeps them, and the text of rules.json. Rules/Calls is a sequence of calls, with
-- changes of the file by others; the rest of the folder is proofs.
--
-- Relay models src/reqable_mcp/relay.py, the tokens that rules carry from a response to later
-- requests. DryRun models src/reqable_mcp/dry_run.py, the matches of rules that are only tried
-- out. WaitQueue models src/reqable_mcp/wait_queue.py: WaitQueue holds the filters,
-- WaitQueue/Waiters the registry. FlatBuffers models
-- src/reqable_mcp/sources/flatbuffers_reader.py, the reads that decode the captured records.
-- Daemon models src/reqable_mcp/daemon.py: Daemon/Packing the packing of the rules that matched
-- into one response (`_pack_rules_for_ipc`), Daemon/Handlers the requests that reach the relay
-- store and the dry-run log, Daemon/Dispatch all requests of the hook (`_handle_ipc_request`),
-- with `Rule.matches` on arguments of any JSON type, and Daemon/Reaper a round of `_reap_loop`.
-- Daemon/Carried joins the hook to the daemon by a socket that hands each request to the dispatch
-- and gives back its answer, as the frames and JSON carry them. Ipc models the frames of
-- src/reqable_mcp/ipc/protocol.py (`decode_message`), and Ipc/Server the reading of a connection
-- and its life in src/reqable_mcp/ipc/server.py (`_read_line`, `_handle_one`); the handler is an
-- arbitrary function on its own state. ProxyGuard models src/reqable_mcp/proxy_guard.py, which
-- keeps a second proxy away from the daemon. Addon models src/reqable_mcp/hook/template/addons.py,
-- which runs in the proxy: Addon/Path and Addon/Body walk and rewrite bodies, Addon/Client asks
-- the daemon, Addon/Apply applies a rule (`_apply_rule`), and Addon/Hook holds `onRequest` and
-- `onResponse`; the SDK of the proxy (headers, parts of a body), Python's library and the socket
-- are parameters, the socket as a function on the state of the daemon. RuleTools models
-- src/reqable_mcp/tools/rules.py: RuleTools/Checks the checks of the tools, RuleTools/Calls the
-- tools, RuleTools/Relay `auto_token_relay`, and RuleTools/Log the tools of the dry-run log.
-- Schema models src/reqable_mcp/sources/objectbox_meta.py, which reads the schema of the database
-- with the FlatBuffers reader: `_parse_property`, `_parse_entity`, and `load_schema` over the
-- entries of the metadata. WaitTool models src/reqable_mcp/tools/wait.py, a client of the wait
-- queue. Values holds what the tools do with values that came from JSON. Database models
-- src/reqable_mcp/db.py as tables of rows. Poller models src/reqable_mcp/sources/lmdb_source.py:
-- the rows that captures become (`_project_record`), Poller/Decode the decoding of a value and
-- `fetch_record`, Poller/Scan a scan (`_scan_once_unsafe`), Poller/Loop the loop `_run` round by
-- round, and Poller/Waiting joins it to the wait queue as src/reqable_mcp/daemon.py does. Install
-- models src/reqable_mcp/hook/install.py, with Install/Deploy for src/reqable_mcp/hook/deploy.py;
-- Bodies models src/reqable_mcp/sources/body_source.py, Export the decoding of bodies in
-- src/reqable_mcp/tools/export.py, Replay the headers and bodies of
-- src/reqable_mcp/tools/replay.py, and Query the command that `to_curl` of
-- src/reqable_mcp/tools/query.py builds, with a reader of shell words to state what its quotes
-- mean. Analysis models the tally of `find_dynamic_fields` in src/reqable_mcp/tools/analysis.py.
--
-- Prelude, Json and Python are shared: dictionaries in insertion order, lists over native numbers,
-- integers, exceptions as a result type, JSON values as `json` reads them, and a record of what
-- the code calls from Python's library (case folding, regular expressions, `json.dumps` and
-- `json.load`), which every definition that uses it takes as an argument and of which nothing is
-- assumed unless a theorem says so.
--
-- A time is a whole number of microseconds where the code has a float of seconds, and each reading
-- of the clock is an argument, as are new uuids and whether a file can be read or replaced. A
-- method that takes its lock for its whole body is one step. A method that may raise returns a
-- result beside the new state, so what was written before a raise stays. Integers are unbounded as
-- in Python; those that come from bytes are bounded by their width. The loops go over lists or
-- over a count that was read, so no fuel is needed.
--
-- Not modelled: the starting and stopping of the daemon's threads, the accept loop of the server
-- and the encoding of responses, the searches of the SQLite cache, the runtime that Reqable puts
-- around the addon, the other tools that query, compare and analyse captures, the formats and
-- files of the export, the sending of a replayed request, the running and the splitting of `scutil
-- --proxy`, and the command line.
pub mod Prelude
pub mod Json
pub mod Python
pub mod Relay
pub mod Rules
pub mod DryRun
pub mod WaitQueue
pub mod Daemon
pub mod FlatBuffers
pub mod Ipc
pub mod ProxyGuard
pub mod Addon
pub mod RuleTools
pub mod Schema
pub mod WaitTool
pub mod Values
pub mod Database
pub mod Poller
pub mod Install
pub mod Bodies
pub mod Export
pub mod Replay
pub mod Query
pub mod Analysis
