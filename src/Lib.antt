-- ===== src/Lib.antt =====
-- Verification of the parts of this repository that carry its own logic.
--
-- The program is a set of Rust modules of a node that signs Lightning transactions, serves small
-- language models and rents virtual machines to other nodes.
--
-- - Breaker models hybrid-signer/src/circuit_breaker.rs: `should_allow`, `record_success` and
--   `record_failure` are steps on the record `Breaker`, at a reading of the clock in nanoseconds.
--   `Breaker.Backoff` and `Breaker.Runs` are about single steps and about whole runs of calls.
-- - Tee models the signing interface of tee-foundation/src (traits.rs, error.rs) and its software
--   provider (providers/mock_vls.rs), and `Tee.Hardware` the hardware trust with its mock
--   (providers/mock_hardware.rs). `Tee.Config` reads the configuration (config.rs) and builds the
--   providers that it asks for, and `Tee.Endpoints` has the requests of http_tee.rs that reach them.
-- - Signer models hybrid-signer/src/ldk_signer_adapter.rs, which asks the breaker before the
--   provider: `sign_commitment`, `sign_htlc` and `sign`, over any provider.
-- - Recovery models hybrid-signer/src/recovery.rs: the report on the channels after a restart.
-- - Slm models slm-edge-inference/src: models.rs, memory.rs (`Slm.Memory`; the compare-and-swap
--   loops among other threads are the step relation of `Slm.Memory.Race`), providers/mod.rs and
--   providers/mock.rs (`Slm.Provider`, `Slm.Mock`), providers/ollama.rs (`Slm.Ollama`), lifecycle.rs (`Slm.Lifecycle`)
--   and router.rs (`Slm.Router`). The router reads the budget and the provider that the manager changes.
--   `Slm.Lifecycle.Tasks` takes the loads and unloads apart at the points where they wait, and lets
--   any number of tasks take turns, or be dropped, around the manager's permit. `Slm.Config` reads the
--   configuration (config.rs), `Slm.Subsystem` starts the module and sets its gauges (mod.rs,
--   metrics.rs), `Slm.Endpoints` answers the requests of transport/http_slm.rs, and
--   `Slm.Memory.System` reads the system's own count of free memory.
-- - Libvirt models cross-node-rental/src/workspace/libvirt_provider.rs: the checks on what a renter
--   supplies (`Libvirt.Validate`), the pool of ports (`Libvirt.Ports`), the commands given to the
--   host (`Libvirt.Host`), the polling loops (`Libvirt.Poll`) and the operations on the tenants
--   (`Libvirt.Runtime`). What was asked of the host is a history, and how it answers is a parameter
--   that may depend on all of it; the clock is a part of it. `Libvirt.Runtime.Operate.Locked` has
--   the operations as tasks that take turns around the lock that they hold. `Libvirt.Setup` builds the
--   runtime from the environment, after its checks of the host.
-- - Snp models phase-a-cloud-cc/backend/sev_snp_verifier.rs over the `sev` crate, a parameter.
-- - Timer models cross-node-rental/src/workspace/payment_timer.rs: the map of the tasks that pay for
--   sessions, and the payments that a task asks for.
-- - Container models cross-node-rental/src/workspace/container.rs: the trait, the runtimes over
--   Docker and over a terminal, and the choice between the runtimes (`Container.Detect`).
-- - Events models cross-node-rental/src/events/handlers: the three handlers are functions on the part
--   of the application's state that they read; the router and the workspace service are parameters.
-- - Rental models how one node rents from another: the interface and the service's own implementation
--   of it (cross-node-rental/src/endpoints/workspace_endpoint.rs, `Rental.Endpoint`), the routes
--   (transport/node_server/http_workspace_external.rs) and the client
--   (transport/node_client/http_workspace_client.rs). `Rental.Pairing` puts the client on the routes.
--   `Rental.Screen` is the proxy of a machine's screen, with its two loops, which take turns
--   in `Rental.Screen.Joined`.
-- - Json and Lightning model cross-node-rental/src/ldk_bolt12_capabilities.rs. The node, the L402
--   service and the recovery module are the records of `Lightning.Node`, parameters. A handler takes
--   the node's state and a request and gives the state and a `Reply`, which may be a panic. There is
--   a module for each group of handlers, `Lightning.Listing` for the history of payments, and
--   `Lightning.Dispatch` for the match on the capability's name; `Lightning.Advertised` has the list
--   that the application publishes, and `Lightning.Numerals` the two forms of a channel's number.
--
-- Env has the environment's variables, a parameter, and the reading of a number from one of them.
-- Base has the names, the Boolean tests, the lists, the machine words and the results that these
-- modules share. Each module has its theorems in its children and its tests in a child `Tests`.
--
-- Numbers are native. Machine words keep their wrap-around where the code adds without a check, and
-- saturate where it says so. Durations are nanoseconds in Breaker and milliseconds in Libvirt. The two
-- polling loops of Libvirt run on fuel: one unit for each round, as many as the timeout has seconds, or
-- as the deadline has milliseconds. So does the writing of a number in decimal: one unit for each digit
-- that a machine word can have. Texts are lists of code points in Libvirt and Timer, and strings elsewhere; lower
-- case is that of ASCII there. A number in a JSON text is an integer. A formatted message of Slm is a
-- constructor that carries what is formatted.
--
-- Not modelled: log lines, and the counters and histograms of the metrics; the registration of the
-- routes; the hardening of the process when the signer starts.
-- Concurrency is modelled where the code relies on it: the memory counter is shared by threads, the
-- operations on tenants exclude each other by a lock, loads and unloads of models take turns as tasks,
-- a swap of models can be dropped while it waits, and the two loops of a screen's proxy take turns.
-- The weak order of the breaker's atomics is not modelled. Nor is the overflow of the deadline in
-- `wait_for_dhcp_lease`, at which the code panics: the timeout is one whose deadline the clock can hold.
mod Base
pub mod Breaker
pub mod Tee
pub mod Signer
pub mod Recovery
pub mod Slm
pub mod Libvirt
pub mod Snp
pub mod Timer
pub mod Container
pub mod Env
pub mod Json
pub mod Events
pub mod Rental
pub mod Lightning
