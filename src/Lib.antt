-- ===== src/Lib.antt =====
-- qcontroller: the control plane of a cluster of QEMU virtual machines.
--
-- A node runs a controller, which keeps VM instances in a badger database and asks a QEMU service to
-- run them, and a file registry, which keeps disk images. An orchestrator serves the users, passes
-- requests on to the nodes, pushes images to them, and broadcasts their events.
--
-- * Db (src/pkg/controller/db/persistence.go): Get, List, Update and Remove are `get`, `list`,
--   `update` and `remove`; the function that Update hands to badger is `update_txn`. The package
--   badger is the parameter `Badger` of the file Badger, with its documented laws; a transaction
--   that fails writes nothing.
-- * Controller (src/pkg/controller/state.go): the interface State as a record of operations with
--   the laws that its clients use; Controller.Database fills it.
-- * LocalManager (src/pkg/controller/vm/local_manager.go): Create, Start, Stop and Remove are
--   functions from a `World`, the store with the calls made to QEMU, to a `World` and a reply. The
--   answers of the QEMU service during one operation are a parameter. LocalManager.Report is Info
--   with reconcileInstances and batchEnrichWithRuntime.
-- * Events.Publisher (src/pkg/events/eventpublisher.go): the queue and the cache of infos.
--   Events.Pump is the goroutine of NewEventPublisher, a state machine over the answers of its
--   streams. Events.Service (src/pkg/protos/event.go): the fan-out of what publishers send.
-- * Manager (src/pkg/controller/vm/manager.go): the two together; `poll` is a turn of the polling
--   loop, `start_async` what the goroutine of Start does.
-- * ControllerService (src/pkg/protos/controller.go): the handlers as programs of transactions, calls
--   and locks (LocalManager.Threads, and the calls of Manager), which goroutines run in turns that a
--   schedule gives. Alone and Atomic relate one goroutine by itself to LocalManager and
--   Manager.
-- * Broadcast (src/pkg/orchestrator/broadcast.go): the hub as a step relation. A schedule is a list
--   of actions, so that every order in which the channels can be served is covered.
-- * Orchestrator.Server and Orchestrator.Remote (src/pkg/orchestrator/server.go, remote_manager.go):
--   the front server, and the manager of a remote node with ensureImage and its progress.
-- * Images.Storage (src/pkg/images/storage/local.go) and Images.Registry
--   (src/pkg/protos/fileregistry.go): image files with their metadata, uploads and downloads.
--   Images.Client (src/pkg/images/impl.go) is Upload and Download on the other side of the stream,
--   and Images.Handler (src/pkg/images/handler.go) the HTTP handlers over it.
-- * Process.Loop (src/pkg/protos/process.go): instanceLifecycleLoop as a step relation, with the
--   goroutines that wait for the end of an instance. Process.Service is Start, List, Remove and
--   reattachOnStartup of the same file, with what they send to the loop, and Process.Info is Info
--   and Stop, which send it commands. Process.Monitor (src/pkg/qemu/process/instancemonitor.go) is
--   the monitor that the loop asks: a step is one event of its client.
-- * Network (src/pkg/utils/network): Ip is ip/ip.go, Packets is bpfPackets of arp/bpf_darwin.go,
--   Frame is arp/arp.go with the filter of bpf_darwin.go, Conn is
--   arp/conn_darwin.go and conn_linux.go, the system calls of a connection, Scan is arp/scanner.go
--   and Resolver is arp/resolver.go, which Process.Info asks for addresses.
-- * Grpc (src/pkg/grpcutil/grpcutil.go): servers, connections and the calls between them.
-- * Utils.File (src/pkg/utils/file.go): WaitForFileCreation with the file and the watcher's queue.
-- * Commands (src/qcontrollerd/cmd): Gateway is the handlers of orchestrator.go, Subscriber is
--   node_subscriber.go, and Platform is the choice of a network in qemu_darwin.go and
--   config_linux.go, with platform_config_darwin.go and bridge_darwin.go. Firewall is the
--   reconciliation of forwarding rules in qemu_linux.go.
-- * Auth (src/pkg/auth): Http is auth.go, Middleware and Guards are middleware.go with handlers.go
--   and slog.go, Metadata is grpc.go, Cookie is cookie.go, Oidc is oidc.go with the expiry of a token
--   in Jwt, Discovery is NewOIDCVerifier of oidc.go with GetConfig, GetMe and Logout of
--   grpc_server.go, and Secret is secret.go, with two processes that take turns.
--
-- Vm has the messages of schema/protos. Base has the shared helpers, and Tests the theorems at
-- concrete inputs.
--
-- SubnetHosts runs on fuel, and with it the scan and the resolver: the number of the addresses of
-- the subnet is enough, and for the empty prefix the loop never ends. bpfPackets runs on fuel too,
-- where one more than the length of the buffer is enough. All other loops run over lists. Numbers are
-- natural numbers without a bound where the source has sizes of files and times in seconds; bytes of
-- addresses and frames wrap around as in the source. The percentage of an upload is the source's for
-- files of less than 2 ^ 63 / 100 bytes. Each method that holds a mutex is one step,
-- and each region under the mutex in Events.Service. Go's order of iteration over a map is that of a
-- list, or a parameter. Logging is left out. An address and a mask have one length, as the four bytes
-- of IPv4 that a network is configured with.
--
-- A panic of one goroutine would end the controller; the schedules go on behind it, so that what they
-- keep holds at that point too.
--
-- Not modelled: the network managers (src/pkg/utils/network), which are calls of the operating
-- system, and of src/qcontrollerd what dials, parses flags, reads files and forwards DNS. The code
-- under src/generated is generated.
pub mod Base
pub mod Vm
pub mod Badger
pub mod Db
pub mod Controller
pub mod LocalManager
pub mod Events
pub mod Manager
pub mod Broadcast
pub mod ControllerService
pub mod Auth
pub mod Orchestrator
pub mod Images
pub mod Commands
pub mod Process
pub mod Network
pub mod Utils
pub mod Grpc
pub mod Tests
