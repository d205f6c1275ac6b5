-- ===== src/Lib.antt =====
-- influxdb-relay: a model of the relay's buffers and of its build and packaging script, with proofs.
--
-- The relay (relay/*.go) forwards each write to every backend. A backend may be configured
-- with a retry buffer, which collects the writes of a time of failure in batches and posts each batch
-- again until the backend takes it.
-- build.py compiles the relay for a platform and architecture, lays out package trees, calls tar, zip
-- and fpm on them, and reports the packages with their digests.
--
-- - Base, Base/Text, Base/Decimal: shared names; the string methods that the script calls (split, join,
--   replace, strip, `in`), `int` and `str`.
-- - Os: the operating system, git, go and fpm as a record of answers that may depend on all that
--   happened before; the effects of the script as a trace of events, newest first; a monad with
--   exceptions and sys.exit. Os/Keeps proves what the events of a piece of code can be, Os/Inversion
--   takes apart runs that returned, Os/Keeps/Outcomes says what a piece does
--   where it returns one value, and what it may return.
-- - Script: the constants of build.py and os.path.join. Its children are the functions:
--   Shell (run, create_temp_dir), Version (increment_minor_version), Repo (get_current_branch,
--   get_current_commit, local_changes, go_get), Host (get_system_arch, get_system_platform,
--   get_go_version, check_path_for, check_prereqs), GoList (go_list), Tree (create_package_fs,
--   package_scripts), Target (build), Digest (generate_md5_from_file), Package (package, as
--   `package_build`), Main (main, with the parser's defaults in Main/Defaults). Quiet, Target/Effects,
--   Package/Effects and Main/Emits say which events each piece may add to the trace, Os/Keeps/Traces does so for the
--   whole trace. Main/Failure, Main/Removals and Main/Branch say what `main` has done where it failed, what
--   it removes and on which branch it ends.
-- - Relay/Buffer: bufferList of relay/retry.go with `add` and `pop`. Buffer/Ways has the cases of the loop of
--   `add`, Buffer/Order the order of the writes of one key, Buffer/Bounds the sizes, Buffer/Runs sequences
--   of both operations.
-- - Relay/Retry: retryBuffer of relay/retry.go, its `post` and the retry loop of its `run`, which is
--   `retry` here. Retry/Laws has its theorems.
-- - Relay/System: the goroutines around a retryBuffer, any number of `post` and one `run`, as a step
--   relation; a batch's `resp` and wait group are the list of finished batches. System/Chain has all batches
--   in one line, System/Invariant the invariant, System/Moves, System/Turns and System/Preserved that the steps
--   keep it, System/Laws, System/Recovery, System/LateRead and System/Overtaking the
--   theorems. Buffer/Ids shows that a batch's number names it.
-- - Relay/Responses: how ServeHTTP of relay/http.go chooses the client's answer among those of the
--   backends. Responses/Laws has its theorems.
-- - Relay/Serve: the checks of a request in ServeHTTP of relay/http.go and what it forwards. gzip, the
--   encoding of a query and the points of the InfluxDB client are parameters. Serve/Laws, Serve/Policy
--   and Serve/Panics have its theorems.
-- - Relay/Udp: udpBackend.post of relay/udp.go, which cuts a packet into datagrams at line ends. Its loop
--   has fuel for one round more than the packet has bytes; each round takes one byte at least.
-- - Relay/Handler: the whole of ServeHTTP, from the request to the answer.
-- - Relay/Packets: UDP.post of relay/udp.go, which gives a packet's lines to every backend.
-- - Relay/Listener: Run and Stop of relay/udp.go, the reader of packets, the goroutine that posts them and
--   Stop, as a step relation. Listener/Invariant has the invariant, Listener/Preserved
--   that each step keeps it, Listener/Laws and Listener/Shutdown the theorems.
-- - Relay/Poster: simplePoster.post and responseData.Write of relay/http.go, with net/http as a parameter.
-- - Relay/Config: the records of relay/config.go. Config/Make has newHTTPBackend and NewHTTP of
--   relay/http.go, NewUDP of relay/udp.go and New of relay/relay.go, Config/Laws and Config/Backends
--   their theorems.
-- - Tests: runs of the functions and of the whole script, and the theorems at concrete data.
--
-- The script is read as Python 2.7, which its first line names. A dict is a list of pairs that
-- is gone through in written order. `int` reads ASCII digits with a sign and blanks around. A call
-- of the file system raises OSError where the environment says so (IOError counts as OSError), after the
-- attempt is noted. The loop over a file's chunks has fuel for one round more than it has bytes,
-- which is enough, as each round but the last reads one at least. All other loops of the script are
-- over lists.
--
-- Not modelled: what is logged (the calls made for a log line are), check_environ, which only logs,
-- argparse; and of the Go sources all that the modules above do not name: sockets, TLS, the
-- starting of the relays, the reading of the configuration file.
-- An operation under the list's lock is one step. `add` reads `*cur` after the unlock, which is a
-- step of its own (`reads` of System, `read_cur` of Buffer); System/LateRead shows what comes of it.
-- A poster is a parameter. A list whose maximum size has wrapped around to a negative number is not
-- modelled beyond the configuration. In a path `..` is found as two dots in a row.
pub mod Base
pub mod Os
pub mod Relay
pub mod Script
pub mod Tests
