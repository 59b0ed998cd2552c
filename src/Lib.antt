-- ===== src/Lib.antt =====
-- A model of plain-text-gtd: of its task application, system/apps/gtd/src/gtd, a web application that
-- keeps one Markdown file with a YAML header for each item, and of parts of the workspace around it:
-- who controls a browser that humans and agents share, what the shell keeps of layouts, clients and
-- events, what a command line asks of the `tk` tool, which process is shed first, whether an agent is
-- shown as thinking or running a tool, which apps there are, and which backups are still waited for.
--
-- The parts, and the files that model them:
--   data_types.py   `DataTypes`: `Item`, `ItemStatus`, `Priority` with their texts and sort tables.
--   storage.py      `Storage`: `Storage/Files` has the operations on the item files (`write_item`,
--                   `read_item`, `delete_item`, `all_items`, `children_of`), `Storage/Posts` and
--                   `Storage/Coerce` the reading of a header (`_item_from_post`) and its writing,
--                   `Storage/Documents` the four texts and `seed_defaults`. The other modules
--                   beside them hold proofs, and `Memory` an instance.
--   runner.py       `Routes`: the handlers that change items, each with all its reads, writes and
--                   failures; `Views`: the lists that the pages show; `Exports`: the texts for
--                   agents. The names are those of the Python functions.
--   system/libs/tk_command_parsing/src/tk_command_parsing/parser.py
--                   `Commands`: `parse_command` and its parts, `flag_values` and
--                   `extract_create_titles`.
--   system/services/oom_priority/src/oom_priority/bands.py
--                   `Bands`: the bands and the functions that compute them.
--   system/apps/system_interface/imbue/system_interface/activity_state.py
--                   `Activity`: what is shown of an agent, from its transcript.
--   system/apps/browser/src/browser/session.py and names.py
--                   `Browser`: the control of one browser (`LiveBrowser`) in `Browser/Control` and
--                   `Browser/Acquire`, its interleavings in `Browser/Steps`, the fleet
--                   (`BrowserSessionManager.create`) in `Browser/Fleet`, its names in `Browser/Names`, and the
--                   queues of its viewers in `Browser/Cast`.
--   system/apps/system_interface/imbue/system_interface
--                   `Shell`: workspace_layouts.py in `Shell/Slugs` and `Shell/Layouts`,
--                   event_queues.py in `Shell/EventQueues`, ws_broadcaster.py in
--                   `Shell/Broadcaster`, `LayoutMutex` and the terminals of layout_ops.py in
--                   `Shell/Mutex` and `Shell/Terminals`, client_activity.py in `Shell/ClientLog`.
--   system/services/app_watcher/src/app_watcher/watcher.py
--                   `AppWatcher`: the events that tell a reader which apps there are.
--   system/services/host_backup/src/host_backup/cli.py and config.py
--                   `Backup`: the waits of the command that starts a backup; the reading of restic.env
--                   in `Backup/Config`.
--   system/services/oom_priority/src/oom_priority/ledger.py and bin/claude_shed_notice_hook.py
--                   `Bands/Ledger`: what was shed, and who is told.
-- `Tests` applies the theorems to small data.
--
-- The handlers read a request (`Routes/Requests`), read items from the store, and write them back;
-- a change of a project's status goes on to its children (`Routes/Cascade`). The pages read all the
-- items once, as a list, and compute from that list and the day.
--
-- State: `World` is what a handler reads and changes: the files under the one root that every caller
-- uses, the stream of times that `datetime.now` returns, and the stream of random numbers behind new
-- ids. An action takes a world and gives a value or a failure, and the world after it, so that what
-- was written before an exception stays written.
--
-- Python's values: a text is a list of code points (`Text`), a date its ordinal and a time its
-- microseconds (`Dates`), a dict an association list in the order of insertion (`Prelude/Dicts`),
-- and `sorted` a stable insertion sort over a key (`Prelude/Order`). Dates stay below the year
-- 10000, as in Python. `fromisoformat` reads the calendar forms, without week dates or time zones.
--
-- Parameters: `Host` is what comes from Unicode tables and from the time zone; `Frontmatter` is the
-- python-frontmatter package, of which `IsLawful` states what the store relies on: a post that is
-- written is read back. `Storage/Memory` has a package that meets this. `Commands/Segments` takes the
-- lexer `shlex` and the test for a character of a word as arguments, and assumes nothing of them;
-- `Activity` takes that test, and the instants with their order.
--
-- A page takes the day as an argument, where the code asks for it, and more than once on some pages;
-- the pages are modelled as the lists that they hand to their templates.
--
-- Concurrency: an operation of `Browser` or `Shell` is what runs under one hold of the lock of its
-- object, and sequences of operations stand for all interleavings, but in two places: the `broadcast`
-- of `Shell/EventQueues` has a second part, `deliver`, that the code runs without the lock, and the
-- model puts nothing between the two; `register_cast_queue` of `Browser/Cast` waits twice, and takes
-- the browser at the start, the browser once it has waited, and the queues at the end as three
-- arguments. An asyncio event, a queue, a task or
-- a waiter is known by a number, and the state has what was put in it. The clocks are streams of
-- readings, or readings that a call is given; instants are microseconds. The limits that environment
-- variables may change have their defaults.
--
-- Loops are structural recursion on the list they run over; the search for the next day of a
-- recurring item runs seven rounds, as its range does; the search for a name that is not in use has one
-- more round than there are names in use, and some name is found by then (`Text/Unused`).
--
-- Outside the model: the web framework, templates, HTML and links, files of other encodings, YAML
-- values nested in lists, floating-point numbers in headers, two requests that write at once,
-- the reading and writing of /proc in the bands, launching and driving of browsers, registries of
-- layouts that cannot be read, and the texts of messages to agents.
pub mod Prelude
pub mod Text
pub mod Dates
pub mod DataTypes
pub mod Host
pub mod Frontmatter
pub mod World
pub mod Storage
pub mod Routes
pub mod Views
pub mod Exports
pub mod Commands
pub mod Bands
pub mod Activity
pub mod Queues
pub mod Browser
pub mod Shell
pub mod AppWatcher
pub mod Backup
pub mod Tests
