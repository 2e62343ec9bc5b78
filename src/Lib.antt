-- ===== src/Lib.antt =====
-- HyprPilot, a typed client, a daemon and a tool server for the Hyprland compositor.
--
-- The program's parts, and the files that model them:
-- * crates/hyprpilot-core is the client of Hyprland's sockets. Core/WindowSelector and
--   Core/WorkspaceRef model the two selector grammars of src/selector.rs (`encode` and
--   `parse`); Core/Connection the dispatchers of src/ipc.rs and src/dispatch.rs, over a transport
--   `send_raw` that is a parameter; Core/Events the reader of event lines and `extract_fields` of
--   src/events.rs; Core/Types the records of src/types.rs; Core/Error the errors and their texts.
--   Core/Snapshot models src/snapshot.rs: the data and `validate_name`, with `diff_against` in
--   Diff, `apply_diff` in Apply, what Hyprland does with its commands in Commands, the restore preview in Preview, `Snapshot::capture` in Capture and
--   the files in Files.
-- * crates/hyprpilot-daemon is the process between the clients and Hyprland. Daemon/Actions models
--   src/actions.rs, the grammar of a rule's actions and `Action::execute`; Daemon/Rules and
--   Daemon/Engine model src/rules.rs and src/engine.rs, where an event fires the first rule that
--   matches it unless the reentrance guard is up; Daemon/Undo and Daemon/Shell model src/undo.rs,
--   the stack of inverse operations, its file, and the command line that brings a killed process
--   back; Daemon/Recorded the operations of src/server.rs that record their inverse, and the undo,
--   over the queries of Core/Queries; Daemon/Cache models src/cache.rs, the world model that events invalidate.
--   Daemon/Binds models src/binds.rs, the lookup of a keybind by its chord, and Daemon/Protocol the
--   requests of src/protocol.rs. Daemon/Server models the other handlers of src/server.rs, with the
--   accessibility requests in Access, the snapshot and rule requests in Snapshots and
--   `handle_request` in Requests, over the services of Daemon/Services; Daemon/Replies the answers.
-- * crates/hyprpilot-input and crates/hyprpilot-vision drive the keyboard and the pointer and read
--   the screen. Input/Keys, with Input/Keysyms, Input/Buttons and Input/Error, models src/keys.rs and
--   src/error.rs; Vision/Geometry the regions and boxes of src/capture.rs, Vision/TextSearch
--   `find_word_runs` of src/ocr.rs. A11y models src/element.rs and src/error.rs of
--   crates/hyprpilot-a11y.
-- * crates/hyprpilot-mcp offers the operations as tools to an agent. Mcp/Capability models the
--   profiles of src/capability.rs; Mcp/Tools src/tools.rs, with the argument structs in Args, the
--   outcomes and helpers in Ops, the arms of `dispatch` in Arms, the match in Table and the registry
--   in Registry; Mcp/Rpc the envelope of src/protocol.rs. Of src/server.rs, Mcp/Server models the
--   list of tools and the check of a call, Mcp/Session the calls of the daemon, Mcp/Clicks the
--   choice of a point to click, Mcp/Calls how each outcome of `dispatch` is carried out, and
--   Mcp/Handle the way from a request to its answer. Mcp/Desktop joins the tool server to the daemon.
--
-- How the code is modelled:
-- * A text is the list of its code points. Integers are the library's native numbers and `ℤ`; an
--   `i32` is parsed and printed with its bounds, and the guard's `AtomicUsize` wraps at 2 ^ 64.
-- * A `Result` is a data type with `?` as bind. A call of Hyprland is a function of Hyprland's state,
--   any type `W`, that returns a result and the new state, so an error path keeps what was done
--   before it. Every recursion is structural, so there is
--   no fuel.
-- * The undo stack's disk maps a path to what it holds; each operation is given whether its write
--   succeeds. `serde_json` is a pair of parameters, of which a restart assumes that the decoder
--   reads back what the encoder wrote.
-- * Hyprland is a parameter. Where a theorem needs what a command does to a window, the documented
--   effects of the commands are its hypotheses (Core/Snapshot/Commands). The shell that runs an undo is
--   Daemon/Shell/Words: blanks, quotes, backslashes, assignments and reserved words, without expansion.
-- * The guard's decay is a step of its own, so that the engine's theorems speak of every order of
--   events and decays. A read through the cache is a query between two lockings, so an event may
--   come in the middle.
--
-- Prelude holds the shared tests, lists, texts and numbers, Prelude/Maps the string maps. Tests
-- applies the theorems to concrete inputs.
--
-- A handler of the tool server is a step on a session, which may end it with an answer; serde, the
-- daemon, grim and tesseract are the fields of a record `Host`, over any type of worlds. An `f64` is
-- its bits, and its divisions a parameter. A wrapping `i32` sum is written out, as in a release build.
--
-- Not modelled: sockets, subprocesses and the reading of TOML and JSON, the clock, log
-- output; the loops over sockets and stdin, the backends that synthesise input, the
-- capture and OCR subprocesses, the accessibility bus and the command line
-- (crates/hyprpilot-input/src/runner.rs and virtual_pointer.rs, crates/hyprpilot-a11y,
-- crates/hyprpilot-cli), which call other programs or print.
pub mod Prelude
pub mod Core
pub mod Input
pub mod Vision
pub mod A11y
pub mod Daemon
pub mod Mcp
mod Tests
