-- ===== src/Lib.antt =====
-- ferry-cli is the command line client of the FERRY money transfer API. An invocation names an
-- operation, sends at most one kind of HTTP request for it (with resends under one idempotency
-- key), and turns the answer into an exit code that says what happened to the money.
--
-- The parts modelled and where they stand:
--
--   Base        shared names of the library, Boolean tests, lists, message pieces.
--   Outcome     internal/outcome: the decision table and the two classifiers.
--     Class       class.go: `Class`, `Properties`, `Outcome`; `properties` is the declared table.
--     Operation   input.go: operations, command states and `ClassOf`.
--     Input       input.go: `Input` and its detail readers.
--     Table       table.go: `rule`, `verdict`; Table/Row and Table/Rows hold its 59 rows and the
--                 refinements of two of them.
--     Answers     classify.go: the branches of `Classify` that do not read the table.
--     Classify    classify.go: `Classify`, `annotate`; its children hold the proofs.
--     Command     command.go: `ClassifyCommand`; Command/Terminal holds the proofs.
--   Api         internal/api: the routes, the answer's metadata and the one retry loop.
--     Routes      routes.go: the route table and its look-ups.
--     Target      client.go, routes.go: path expansion and `url.PathEscape`.
--     Envelope    envelope.go: the seven-key decoder over a parsed JSON object.
--     Meta        meta.go: header reading and the retry delay.
--     Retry       retry.go: `Retryable`.
--     Duration    Go's time.Duration: 64-bit, with its wrap-around written out.
--     Client      client.go: `Do` and its loop over a world; its children hold the proofs.
--   Poll        internal/poll: the loop that follows a command to its end.
--     Body        command.go: `Command`, `Input`, `RetryDelaySeconds`, `DecodeCommand`;
--                 internal/api/command_body.go: the body of a stored result.
--     Watch       poll.go: `Watch` as rounds; its children hold the proofs.
--   Runs        internal/runs: the run ledger.
--     Step        record.go: step states, steps, runs and their predicates.
--     Ledger      ledger.go: the methods of a held run, over the record in memory and on disk; its
--                 children hold the proofs.
--     Create      ledger.go: `Create`, `validateNew`, `verifyDigests`, `decode`.
--     Sweep       sweep.go: `Orphans`, `Scrub`, `Prune` and `FindByKey` over a directory.
--     Token       token.go: `planTokenRE` and the textual pass of `stripPlanToken`.
--   Ulid        internal/ulid/ulid.go: `encode`, `Valid`, `Timestamp` and the generator; Bits, Digits, Times,
--               Entropy, Order and Sequence hold the proofs.
--   Creds       internal/creds/creds.go: token shapes and the canonical API URL.
--     Store       creds.go: `Put`, `Remove`, `For` and `Load` on the document of profiles; View and
--                 Binding hold the proofs.
--   Noun        internal/noun/precheck.go: `OpenLocal`, `Session`, `tokenOverride`; Granted and Refusals
--               hold the proofs.
--   Keys        internal/noun/keys/create.go: `buildBody`, `parseScopes`, `parseLifetime`; its children
--               hold the proofs.
--     KeyList     list.go: `queryFor`, `runList`; Pages and Followed hold the proofs.
--   Fsx         internal/fsx/fsx.go: `WriteFileAtomic` with any operation failing.
--   Consent     internal/consent/consent.go: `Ask`.
--   Cli         internal/cli/flight/flight.go: the in-flight flag; internal/cli/root.go: what the
--               wrapper says of a failure.
--   Transfers   internal/noun/transfers: the commands that move money.
--     World       money.go: what a step meets and comes back with, and what is recorded of it.
--     Perform     money.go: `perform` up to the recorded answer; Sends and Forward hold the proofs.
--     Follow      money.go: `followUp`, `pollTarget`, `recordPoll`, and `perform` as a whole.
--     Broadcast   create.go: `broadcast`, `closeExecute`, `freshPlanToken`; its child holds the proofs.
--     Origin      money.go: what a step finds in the record before it is begun.
--     Resume      resume.go: `resumable`, `resumeStep`, `resume`; money.go: `checkCredential`; its
--                 children hold the proofs.
--     Begin       money.go: `begin`, `assertEnvironment`; Opens and Asserts hold the proofs.
--     Body        body.go: `buildBody`, `readBody`, `parseMetadata`, `planToken`; its children hold the
--                 proofs.
--     Create      money.go: `route`, `orphanCheck`, `create`.
--     Invoke      create.go, execute.go, resume.go: `runCreate`, `runExecute`, `Resume`,
--                 `resumeMatched`, with the sessions that each holds; Minted and Gates hold the
--                 proofs.
--
-- How they interact: a money step (Transfers) asks for consent (Consent), writes itself into the record
-- with `Begin` (Runs, whose write is Fsx), sets the flag (Cli), sends through `Do` (Api), classifies the
-- answer (Outcome) and records it. A command that is still moving is followed by Poll, whose every
-- answer `ClassifyCommand` reads. A transfer is one such step, or two under `--broadcast`, past the
-- checks for orphans and for a held key; a resume sends the steps of an earlier one again. A failure
-- on the way is classified by the wrapper (Cli) from the flag.
--
-- Numbers are natural numbers. A time.Duration is 64-bit with wrap-around, since the seconds of a
-- Retry-After header are multiplied by time.Second. An instant is a number of nanoseconds and is
-- unbounded. A byte is a number below 256, and the encoder's operations on bytes are the native ones on
-- binary digits. Text that the program builds with fmt.Sprintf is a list of pieces, so that the whole
-- message is compared and no number formatting is assumed.
--
-- The loops of Do and Watch run on fuel. Their answers come from a stream indexed by the number of
-- the request, and the theorems on termination give the fuel that is enough from the deadline,
-- because a wait takes at least a second. The loop of `keys list` runs on one unit of fuel for a page,
-- and its bound on the pages is the program's own; what comes of each call of `Do`, or that it does not
-- return, is a parameter there.
--
-- Parameters of the model, since their code is not in the repository: the network and the server (a
-- stream of answers), SHA-256 (a function), the lock of the operating system (held or free), the
-- file system (each write succeeds or fails). JSON parsing is the standard library's: the model
-- starts from the parsed value where the decoder's own checks start. What is removed from a response
-- before it is stored is a function that the ledger is given; Runs.Token is the program's. The printing
-- of numbers and texts by fmt is an arbitrary function.
--
-- Not modelled: output formatting, command wiring, and test doubles; the locks
-- themselves (a lock is held or free) and the errors of the file system in the middle of a sweep. The
-- credential and the profile that `begin` chooses are parameters of the rest of a transfer.
pub mod Api
pub mod Base
pub mod Cli
pub mod Consent
pub mod Creds
pub mod Fsx
pub mod Keys
pub mod Noun
pub mod Outcome
pub mod Poll
pub mod Runs
pub mod Transfers
pub mod Ulid
