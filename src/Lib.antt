-- ===== src/Lib.antt =====
-- Verification of the torvm controller, the program that runs Tor in a virtual machine and routes
-- a host's traffic through it. Paths are from the repository's root.
--
-- The parts, and the files that model them:
--
-- Base: the shared names. Base/Text has strings as lists of bytes and the functions of Go's
-- `strings` and `strconv` that the code calls, with those about white space in Base/Space;
-- Base/Results has errors as values; Base/Int has Go's `int` as an integer (no value that the code
-- computes comes near the bounds of 64 bits: a setting is a number of a JSON file, and nothing is
-- computed from one but its text).
--
-- Config, for controller/internal/config: Config/Schema has the settings and the defaults of
-- config.go, Config/Validate its Validate, Config/Address what `net.ParseIP` and
-- `net.SplitHostPort` of Go's standard library accept, and Config/Torrc the checks and
-- TorrcOverlay of torrc.go. Config/CleanAddress, Config/Directives and Config/Overlay are about
-- the lines of the overlay. Config/Deep has reflect.DeepEqual on the settings, Config/Diff has
-- diff.go, and Config/DiffLaws is about it.
--
-- Lifecycle, for controller/internal/lifecycle/lifecycle.go, failsafe.go, retry.go and browser.go:
-- Lifecycle/State has the phases, Lifecycle/Retry the retry policy, Lifecycle/Engine the engine's
-- state, `transition` and the failsafe, Lifecycle/Waits the two polling loops and
-- Lifecycle/Handlers the handler of each phase and the loop of `Run`. `World` holds what the
-- environment answers during one turn of the loop: the VM, the network manager, the control
-- client, the clock and the context. What the engine asks of them is kept in a log of calls.
-- Lifecycle/Turn bounds by a relation what each handler may do, without its conditions, and the
-- other files derive what holds of every run from it. Lifecycle/Reload has ReloadConfig and how
-- controller/gui/circuits_tab.go calls it, with the configurations in a heap, since the window and
-- the engine share them by pointer; Lifecycle/ReloadLaws is about it. Lifecycle/Browser has
-- browser.go, with Stop and Wait of controller/internal/vm/browser.go and the buttons of
-- controller/gui/browser_tab.go, as goroutines that take turns in any order, and
-- Lifecycle/BrowserLaws and Lifecycle/BrowserWait are about it.
--
-- Logging, for controller/internal/logging/ringwriter.go: Logging/Ring has the ring buffer,
-- Logging/Parts the lines of a text, and Logging/History and Logging/Writes tie the two together.
--
-- Vm, for controller/internal/vm: Vm/Qemu and Vm/Browser build the command lines of qemu_args.go
-- and browser_args.go; Vm/Options reads them as QEMU does; Vm/Lines and Vm/Kernel are about the
-- result. Vm/Binary has the search for the binary in qemu.go and Vm/BinaryLaws says where it lies,
-- Vm/StateDisk has statedisk.go, Vm/Instance starts the machines as qemu.go and browser.go do, and
-- Vm/InstanceLaws is about the processes. The random source and the answers of the system are
-- parameters, with no hypothesis.
--
-- Tor, for controller/internal/tor and parseTorrcOverlay of
-- controller/internal/lifecycle/lifecycle.go: Tor/Fields has strings.Fields, Tor/Circuit the
-- reading of the circuits, Tor/Directives the map that SETCONF is given. Tor/Events has the
-- readers of bootstrap.go and bandwidth.go and the helpers on lines of control.go; Tor/EventLaws
-- is about them. Tor/Control has the commands of control.go and the collection of a reply,
-- Tor/Reader its loop over the connection; Tor/ControlLaws and Tor/Replies are about what is sent
-- and what is read back, Tor/ReaderMoves and Tor/ReaderLaws about the loop, whose steps, those of
-- the readers of its two channels and Close come in any order. Tor/Relays has relay.go,
-- GetCircuits and GetBootstrapStatus, Tor/Countries the table of geoip.go, and Tor/Globe the
-- places that ResolveRelay gives. A connection is what a command meets on it: whether the write
-- succeeds, and the lines that come.
--
-- Index, for controller/internal/index and HashTerm of controller/internal/fhe/encrypt.go:
-- Index/Tokens has tokenizer.go, Index/Meta and Index/Filter have metadata.go, Index/Inverted has
-- inverted.go and LocalQuery of query.go, and Index/Search has composite.go; Index/TokenLaws,
-- Index/FilterLaws, Index/Tables and Index/History are about them. The tables of Unicode, its
-- decomposition, SHA-256, the arithmetic of float32 with the sort by scores, and the vector index
-- are parameters, with no hypothesis. A time is the number of nanoseconds since the zero time, and
-- a path is one of Unix.
--
-- Vector, for controller/internal/vectorindex: Vector/Heap has the package container/heap of Go's
-- standard library on a slice of node ids, Vector/Graph the index and the cosine distance of
-- hnsw.go, Vector/Search its beam search and the greedy walk, Vector/Insert the choice of
-- neighbours, Insert and SearchKNN, Vector/Embed has embedder.go and embedder_tfidf.go, and
-- Vector/Index has vectorindex.go. A panic is `none` (Vector/Partial), and so is a loop that runs
-- out of its fuel: the beam search and the walk get one turn for each node and one more, which is
-- enough since no node is visited twice and no distance comes back. Vector/Counts and
-- Vector/HeapLaws are about the heaps, Vector/Beams and Vector/Layers about the beam search,
-- Vector/Descent about the walk, Vector/Select about the choice, Vector/Distances about the
-- slices, Vector/Links, Vector/Neat and Vector/Linking about the lists of neighbours,
-- Vector/Connect, Vector/WellFormed and Vector/Grow about Insert, Vector/Answers about SearchKNN,
-- Vector/EmbedLaws about the embedder, and Vector/IndexLaws and Vector/Replies about the index.
-- float32, the logarithms, the decoding of UTF-8 and the order in which a map is ranged over are
-- parameters; what is assumed of the comparison of numbers, that it is irreflexive and transitive
-- (which NaN does not break) or, for the choice of neighbours, that it is the one of a total
-- preorder, stands in the theorems.
--
-- Update, for controller/internal/update/checker.go: Update/Versions has compareVersions,
-- Update/Checker the rounds of the checker with what GitHub answers, and Update/VersionLaws and
-- Update/Notices are about them.
--
-- Metrics, for controller/internal/metrics/metrics.go: Metrics/Recorder has the recorder, and
-- Metrics/Restarts what it counts when the engine of Lifecycle tells it its transitions.
--
-- Secwatch, for controller/internal/secwatch: Secwatch/Monitor has the monitor, each of whose
-- loops takes turns in any order; Secwatch/Recent and Secwatch/MonitorLaws are about it.
--
-- Witnesses: the theorems at concrete inputs.
--
-- The configuration is checked by Config, then the engine of Lifecycle runs with it; the command
-- line of the VM that the engine starts is built by Vm. When the configuration changes,
-- Lifecycle/Reload takes the differences of Config/Diff, makes a map of the overlay by
-- Tor/Directives and sends it by Tor/Control.
--
-- Bounds: the loops over text are structural. `decimal` has its number as fuel, and a number has
-- at most as many digits as its value, or one. The polling loops take fuel; eleven rounds and 34
-- rounds are enough, since each round sleeps for its backoff and the deadline is fixed. `run`
-- takes one `World` for each turn.
--
-- Durations of the retry policy are 64-bit numbers of nanoseconds. The floating-point number that
-- one is converted from is taken exactly, without its rounding, and a number outside of 64 bits is
-- converted to a value that is a parameter, since Go leaves it open. A slice of the configuration
-- is a list and whether it is nil, which Diff tells from empty.
--
-- Not modelled: the observers' callbacks of the engine but for the transition that they are told,
-- its metrics but for the transitions, log output, Load of the configuration (it reads JSON), the
-- opening and closing of the control connection, the stop of a VM process and its QMP socket, the
-- network managers (calls of the operating system), the random level of a node of the vector index
-- (an argument), the homomorphic encryption (a library's calls), the services of the platforms,
-- and the graphical interface but for the blocking of a relay and the launch of the browser.
pub mod Base
pub mod Config
pub mod Index
pub mod Lifecycle
pub mod Logging
pub mod Metrics
pub mod Secwatch
pub mod Tor
pub mod Update
pub mod Vector
pub mod Vm
pub mod Witnesses
