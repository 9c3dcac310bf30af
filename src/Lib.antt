-- ===== src/Lib.antt =====
-- A model of the server side of the agent app server, a web console that drives Codex threads, with
-- proofs of what its parts promise.
--
-- The program. codex_service.py starts turns on threads, writes each event of a thread to its
-- journal, and hands the recorded event to the hub. turn_manager.py decides who may start, steer,
-- interrupt or change a thread. stream_journal.py keeps one append-only file of events for each
-- thread. event_hub.py holds the bounded recent history of each thread and a bounded queue for each
-- browser that follows it. tenancy.py decides in whose workspace a request works; all keys of the
-- other parts carry that tenant.
--
-- The files.
-- Base: shared helpers. Tests (Booleans on numbers and texts), Lists, Int, Outcome (a value or an
--   exception), Dict (Python's dict and set).
-- Keys: the pair of a tenant, if any, and a thread.
-- Turns: turn_manager.py. `TurnManager` is the class with its fields; reserve, reserve_mutation,
--   finish_mutation, mark_running, attach_task, finish, current, steer, interrupt, status and enable
--   are its methods, and begin_shutdown, shutdown_effects and finish_shutdown the parts of
--   `shutdown` between its waits. Turns/Calls is any sequence of calls.
-- Hub: event_hub.py. `EventHub` is the class, with its subscriptions on a heap, since the hub and
--   the reader share them; publish, subscribe, close, next_event, advance_sequence, current_sequence
--   and subscriber_count are its methods. Hub/Calls is any sequence of calls.
-- Json: the values of `json.loads`, with `get` and the truth of a value.
-- Journal: stream_journal.py. Journal is the loop of `_read_file` (judge is one line's checks,
--   accept the part from the sequence on); Journal/Lifecycle the coverage and
--   `complete_stream_turn_ids`; Journal/Writing `_validate_values`, `_prepare_path` (prepare),
--   `_state` (writer_state), `_append_now` (append_checked is its part after the check of the thread
--   id), `append` of one request to an idle writer, and `ensure_opened`. Journal/Queue is the drain
--   loop of `append` over the requests of many threads, and Journal/Durable mixes appends with torn
--   writes and restarts.
-- Tenancy: tenancy.py and the table of models.py. Names are `_canonical_username`; tenant_for is
--   `_tenant`; Tenancy/Resolve is `resolve`, `_workspace_root` and the kept contexts.
-- Projects: projects.py: `_validate_project_name`, `_generated_project_key` and `_replace` of the
--   registry. Projects/Registry is the discovery of the directories (discover is `_discover`),
--   refresh, get, create, rename, delete and public_view; the directories are passed along, with what
--   the file system allows (`Disk`: to list the root, and to change a directory).
-- Service: codex_service.py: `_fan_out_record`, `_publish` (publish_event, with record_event for an
--   append and its hand-over), `_journal_envelope`; Service/Notifying is `publish_notification`, with
--   normalize_event of Events; Service/Subscribing is `subscribe_events` and
--   `journal_cursor`. A method is a function from a state to a result and a state. The view of
--   attachments is awaited and may raise: `AttachmentView` holds what it answers, and what other
--   tasks have done to the service by the time it is there.
-- Texts: Python's operations on texts, over native strings, whose positions count UTF-8 bytes.
-- Attachments: conversation_attachments.py, what a message keeps of its attachments, with
--   `_validate_name` of project_files.py.
-- Events: stream_journal.py, `normalize_event`: Events has `_safe_value`, `_truncate_output`,
--   `_turn_metadata` and `_safe_goal`; Events/ToolItems `_message_text` and `_safe_tool_item`;
--   Events/Normalizing the branches by method (body_of), Events/Identity the key and the fingerprint;
--   Events/History is `_history_item_event` and `history_watermark`.
--   `TextOperations` holds what is not computed: `str`, `lower`, the redaction, the search for
--   sensitive keys, `json.dumps` and the hash.
-- Files: project_files.py: `_relative_parts`, `_existing_path`, `_directory` and the kinds of `_entry`,
--   over a tree of nodes that stands for the file system; the root is a directory.
-- Requests: schemas.py: the bodies with validators (thread_create is `ThreadCreate`, with
--   validate_creation_mode; thread_update, turn_start, turn_steer, goal_start, project_create).
-- The Examples of each part apply the theorems to small concrete states.
--
-- How state and concurrency are modelled. A method that holds a lock from beginning to end, or that
-- has no await, is one function from state to state; interleavings are sequences of such calls.
-- `_tenant` awaits the database three times, so the rows that its queries see and the rows that its
-- commit meets are separate arguments. Exceptions are values of a result type, and the state after
-- them is written out where the code keeps a change. Tasks, turn handles and event payloads are
-- numbers or a type parameter: the code only stores and compares them.
--
-- Bounds. No function needs fuel: every loop is recursion on a list. Numbers of the program are
-- Python's, so they do not wrap; the limits that the code has (history, queue, 255 bytes of a
-- subject, 128 characters of a name) are written out.
--
-- What stands outside. A journal file is given by its lines, each as `json.loads` makes it: blank,
-- undecodable or a value; a bare carriage return inside a line, symbolic links, permissions, disk
-- errors during a write and log messages are left out, and a line that was written reads back as its
-- object. Random identifiers and the clock are arguments. Header values are Latin-1 text, as
-- the web framework decodes them, and the SHA-256 and the case folding of a name are arguments.
-- Paths of workspaces are their names under the base directory, and those of projects theirs under
-- the root. `str` of a JSON value that is no text, the view of attachments, the answers of Codex and
-- of the file system are arguments.
-- Texts have no lone surrogates. Attribute and type errors of `normalize_event` are values.
-- Not modelled: the regular expressions of the redaction, the timeline, the append of an imported
-- history, retention and statistics of stream_journal.py; the turns, goals, forks and thread
-- lists of codex_service.py, and the adapters of the Codex SDK; the settings and root paths of
-- projects, the changes, previews and Git state of project files, skills and the files of
-- attachments; the bodies of schemas.py that have length limits alone; the HTTP routes, the front
-- end, migrations and scripts.
pub mod Base
pub mod Keys
pub mod Turns
pub mod Hub
pub mod Json
pub mod Journal
pub mod Tenancy
pub mod Projects
pub mod Service
pub mod Texts
pub mod Attachments
pub mod Events
pub mod Files
pub mod Requests
