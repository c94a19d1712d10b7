-- ===== src/Lib.antt =====
-- Shore Sentinel: the API that owns the runs, the worker that carries them out over SSH, and the web
-- front end before the API.
--
-- The API (api/src) creates a run with its job and its first grant, and puts it on a queue. The
-- node worker (workers/worker-node/src) takes it, asks the API for
-- the grant, connects to the machine, runs the scanner there, hands its output to the Python parser,
-- stores the artifacts and reports every step as a run event. The web application (web) shows the
-- runs, and its routes pass requests on to the API after a check of the caller's role.
--
-- Base, Value, Runtime: the shared names and tests; the values of JavaScript; and the functions of
-- the JavaScript runtime that the code relies on (JSON, base64, dates, conversions), which are
-- parameters of every definition that uses them. A number is an integer, an infinity, NaN, or a
-- number between two integers known by the lower one; negative zero is not told from zero. Texts
-- are lists of code points: lone surrogates do not occur.
-- Shared: packages/shared/src/index.js, the vocabulary of events and artifacts.
-- Worker: workers/worker-node/src. Exec is a monad of state and errors in which every call of the
-- API, of the machine and of the parser is an entry of a log; a world, an arbitrary function of
-- that log, answers each call. Limits is payloadLimits.js, Job is payload.js and normalizeSshJob,
-- Lifecycle is lifecycle.js, Output, Control, Monitor and Process are
-- managedSshProcessor.js (the reads of the monitor are entries of the log, between its start and the
-- end of the execution; a world says how often its timer fires), Failure is
-- emitManagedSshFailure and failureHandling.js, Entry is index.js, Config is config.js, Clients is
-- apiClient.js and parserClient.js, Scanner is scannerRunner.js.
-- Ssh: workers/worker-node/src/sshExecutor.js. Bits and Cidr are the address policy, Context is
-- what a scan is given and the commands sent, Transport and Staging are the run, the cancellation
-- and the staging of a request as machines that the events of the connection drive, in any order.
-- Web: web/lib, web/middleware.js and web/app/api. RunStatus, Preferences, Filters and Paths are
-- the modules of web/lib of these names, Middleware is middleware.js, and Proxy holds the routes:
-- each returns a reply and the calls of fetch it made, for any function from calls to answers.
-- Clients is session.js and users-api.js.
--
-- Api: api/src. Run is the rows of one run, and below it Events, Grants, Cancel, Artifacts and
-- Dispatch are the statements of workerEvent, workerSshGrant, cancelRun, workerArtifact and
-- deliverScanDispatch, and the deletion in processCleanupWork, each a function on these rows, whose
-- parts see the rows as they were before the statement. Steps is their histories: statements follow each other in any order and with any
-- arguments, so the requests may be interleaved. Ladder and Sound are the invariant, Automaton is
-- the contract, Requests is the handlers, and Laws is what follows. Queue and Cleanup are the retry
-- policies and the cleanup of queue.service.ts and artifact.service.ts, Storage its object keys,
-- Validation and Launch are validation.ts and ssh-security.ts, Permissions is the role matrix,
-- Accounts is the management of users, and Sessions is auth.service.ts with the gate of main.ts.
--
-- Modules named Laws, and those below Process, Failure, Control, Monitor, Proxy and Validation that
-- define no part of the code, hold the proofs and what they compare the code with (Proxy/Contract
-- the calls a proxy may make, Validation/Decoding the decoding of base64); modules named Examples hold concrete inputs.
--
-- Bounds: every loop of the code runs over a finite list or down from a given number of attempts or
-- of timer events, so each is a structural recursion and none needs fuel. Byte limits and attempts are natural
-- numbers, the 32-bit operations of the address policy are written out with their width.
--
-- Not modelled: the machines, reports and updates of the API, and its database, Redis and object
-- store, which are rows, parameters and answers here; the Python programs; the opening
-- of the SSH connection and the scan that puts the commands together; the process and files of the bundled scanner; React components;
-- and the wiring of Redis, timers and the console. A call under a timeout either settles or times
-- out as the world says; the remote execution settles by itself, and what it does about an abort of
-- the monitor is the choice of the world.
pub mod Api
pub mod Base
pub mod Value
pub mod Runtime
pub mod Shared
pub mod Worker
pub mod Ssh
pub mod Web
