-- ===== src/Lib.antt =====
-- Verification of usbip-ice: a control server lends FPGA boards, which workers flash and watch
-- over, to clients. The parts, with paths from the repository's root:
--
-- * The tables and stored procedures (src/usbipice/control/flyway/migrations): Schema.antt has
--   the tables as lists of rows, Procedures.antt the procedures on workers and devices, and
--   Reservations.antt those on reservations, each procedure under its own name. A call is a
--   transaction from a database to an optional result with the next database; `none` is an
--   exception, after which nothing has changed.
-- * The access to the database (utils/Database.py, control/ControlDatabase.py and
--   worker/WorkerDatabase.py of src/usbipice): Access.antt and its children, one function per
--   method, with a Boolean that says whether the database can be reached.
-- * Events to clients (utils/EventSender.py, control/ControlEventSender.py and the socket
--   handlers of control/app.py and worker/app.py): Events.antt. Events.Queue is `Session`, whose
--   methods run one after another, Events.Threads has its threads step by step, Events.Sockets
--   `EventSender` and the handlers, Events.Package the methods that take JSON.
-- * The control server (control/Control.py): Control.antt, with the threads of `reserve` in
--   Control.Threads; and its periodic tasks (control/Heartbeat.py): Heartbeat.antt, and
--   Heartbeat.Survival for runs of those of the heartbeats and the timeouts in any order and
--   Heartbeat.Notices for what clients are told.
-- * The devices of a worker (worker/device): Device.antt and Device.Ops have a device with its
--   state object and the objects replaced before, whose timers may still run; Device.Manager is
--   `DeviceManager`, with `get_serial` of utils/dev.py, and Device.Reservable the registry of
--   states that can be reserved.
-- * Requests (utils/web.py, utils/utils.py and the registered methods in
--   worker/device/state/core/AbstractState.py): Requests.antt has a handler's parameters as names
--   with annotations, and the answers of the web server; Requests.Registration is
--   `AbstractState.register`, and Requests.Types has the Python types of the annotations.
--   Endpoints.antt has the endpoints of control/app.py (Endpoints.ControlApp) and worker/app.py
--   (Endpoints.WorkerApp) behind that wrapper, with the requests that the program makes to them,
--   and the worker's socket handler (Endpoints.Socket). Endpoints.Releasing follows a client's
--   `end` through all of it, and Endpoints.Granting its `reserve`.
-- * Pulse counts: Pulses.antt is the loop and the reader of
--   worker/device/state/reservable/PulseCountState.py, a turn of the loop being one step, with
--   the upload in Pulses.Upload; Pulses.Threads is the same file with the threads of the loop, of
--   the reader and of `handleExit`, each step by step, in any order; Evaluation.antt is
--   client/drivers/pulse_count/PulseCountClient.py, with the request of client/lib/pulsecount.py
--   in Evaluation.Batch.
-- * The client library (client/lib): Client.antt is `BaseAPI`, `BaseClient` and the sockets of
--   `EventServer`; Client.Waiting is the wait for initialization, Client.Batches
--   `requestBatchWorker`. Handlers.antt is the registry of client/lib/AbstractEventHandler.py
--   with `EventServer.handleEvent`, and Handlers.Messages the way of an event to it. Usbip.antt
--   is client/drivers/usbip/UsbipHandler.py.
-- * The rest: Flasher.antt is utils/FirmwareFlasher.py, Logs.antt utils/RemoteLogger.py with the
--   control server's endpoint for logs, Config.antt worker/Config.py with `config_else_env`, and
--   Files.antt the collections of utils/dev.py and utils/usbip.py, with the uploads in
--   Files.Mounts, `get_busid` in Files.Busid and the text of `usbip port` in Files.Ports, and
--   Circuit.antt the circuits of `generate_circuit`.
--
-- The control server and the workers share only the tables and HTTP requests. A worker's reports
-- change a device's status in the tables, a reservation picks devices listed as available, and
-- the control server then asks each worker to reserve the device. Access.History runs any
-- sequence of the calls of both sides. Control uses Access and Events, and Device.Manager uses
-- Access. Endpoints puts Requests in front of Control and Device.Manager, and Logs is behind it
-- too. The threads of a batch in Endpoints.Socket are those of Control.Threads, over other rows.
--
-- Names, serials, addresses and sockets are natural numbers that are only compared (Files.Ports
-- is given how texts are named), with 0 for the empty text. The loops of the model are over
-- lists, so that each function is total; only three take fuel: the search of `handleEvent`
-- through a class hierarchy, for which the number of classes is enough, the places of an upload's
-- chunks, for which the length of the data is enough, and `re.findall`, for which the length of
-- the text is. What the program asks of the world is a parameter: which emits, connections and
-- heartbeats succeed, what the shell commands and udev answer at a step, the JSON encoder, and
-- the clock. The threads of `Control.reserve`, those in a session and those of the pulse count
-- state are interleaved explicitly; elsewhere the model has a method run to its end before the
-- next one starts, also where the program's locks do not, as in the `flush` of Events.Queue.
--
-- Not modelled: logging, other than through `RemoteLogger`; the web server's entry points and
-- settings; the usbip state, whose constructor always raises; the command line and the examples,
-- which print and call the drivers; the firmware of the boards.
pub mod Access
pub mod Base
pub mod Circuit
pub mod Client
pub mod Config
pub mod Control
pub mod Device
pub mod Endpoints
pub mod Evaluation
pub mod Events
pub mod Examples
pub mod Files
pub mod Flasher
pub mod Handlers
pub mod Heartbeat
pub mod Logs
pub mod Procedures
pub mod Pulses
pub mod Requests
pub mod Reservations
pub mod Schema
pub mod Usbip
