-- ===== src/Lib.antt =====
-- SASD Gatehold: the transactional activation of OpenBSD PF rulesets.
--
-- The program stores validated rulesets as immutable numbered revisions, loads one into PF with
-- `pfctl -f`, checks the result with probes and an explicit confirmation, and commits it or goes back
-- to the last known good revision. A durable transaction record makes the activation recoverable
-- after a crash, and every step is written to an append-only audit journal.
--
-- The parts of the development:
--   Host             what the program asks of the operating system: an oracle `Os` that decides how
--                    each system call ends, and the state `World` (the ruleset PF runs, the files of
--                    the stores, the journal, and the disks passed through so far)
--   Prelude          the names, lists and chains of fallible steps that all parts share
--   Text             bytes, lines, safe identifiers, decimal numbers of 64 bits (`std::to_string` and
--                    `std::from_chars`)
--   Logging          src/core/logging: events, JSON lines, the append-only journal
--   Firewall/Model   src/core/firewall/model.cpp: rules and their validation (`Defs`), what it means
--                    (`Valid`, `RuleSets`) and which networks it accepts (`Network`)
--   Firewall/Renderer     src/core/firewall/pf_renderer.cpp: the text of a ruleset (`Defs`, `Lines`)
--   Firewall/Transaction  src/core/firewall/activation_transaction_store.cpp: the text of the record
--                    (`Record`, `RoundTrip`), `begin`, `load`, `advance`, `clear` (`Store`), and
--                    what they do to the disk (`Effect`)
--   Firewall/Revision     src/core/firewall/revision_store.cpp: `store`, `load`, `mark_last_known_good`,
--                    `last_known_good`
--   Firewall/Pfctl   src/core/firewall/pfctl_loader.cpp and src/core/firewall/native_validator.cpp: the runs of `pfctl -f`
--                    and `pfctl -nf` and the verdict on their results
--   Firewall/Activation   src/core/firewall/activation_service.cpp: `activate` as the sequence of its
--                    stages (`Admission`, `Rollback`, `Loading`, `Service`) and `recover_pending`
--                    (`Recovery`); a run threads the world, the result and the first audit failure,
--                    and a `return` of the source stops it (`Flow`). The proofs go stage by stage
--                    with pre- and postconditions (`Rules`): `Admitted`, `Opening`, `Trial`,
--                    `Approval`, `Commitment`, `Undone` for `activate`, put together in `Outcome`;
--                    `Recovered` and `Restart` for `recover_pending`; `Crash` for both together.
--   Controller       src/core/controller: admission_rate_limiter.cpp, the sliding window of admissions
--                    (`Limiter`); privileged_pf_controller.cpp, the states in which activations are
--                    dispatched (`Privileged`); local_protocol.cpp (`Protocol`): the text of requests
--                    (`Request`), frames on a byte stream (`Frame`), responses (`Response`) and a
--                    session from the peer's credentials to the answer (`Session`);
--                    local_listener.cpp, an admission and a stop of the listener (`Listener`);
--                    controller_service.cpp, the run of the service and its admission loop
--                    (`Service`)
--   Daemon           src/core/daemon/read_only_activation_policy.cpp: the authorizer, the confirmation
--                    gate and the probe of the read-only daemon (`ReadOnly`), and what reaches the
--                    firewall through the controller, the listener and the loop that have them
--                    (`Reach`)
--
-- How the parts interact: the service recovers by `Privileged.start`, then admits connections through
-- the interface `ControllerConnectionAcceptor`; a session of the protocol dispatches to
-- `Privileged.activate`, which runs `activate` of the activation service on the stores, the loader and
-- the journal. The theorems of each layer are stated by those of the layer below.
--
-- How the source corresponds: a member function is a function of the same name; a stage of `activate`
-- is a stretch of that function, in its order. Results are records with the fields of the source.
-- Each system call reads its outcome from `Os` at the next tick of a clock (how a run of `pfctl` ends
-- depends on its arguments, too), so that a theorem for every `Os` covers every pattern of failures. A change of the disk is atomic where
-- the system call is (`renameat`, `linkat`, `unlinkat`), and the earlier disk is kept in `past`: a crash
-- leaves one of these disks. A directory `fsync` that fails leaves its change in place. A connected
-- socket is the list of what it gives to `recv` and the list of what `send` takes from it, with
-- interruptions, failures and the deadline among them. The admission loop of the service has no bound
-- in the source and runs on fuel, one for each round: `run-Returns` and `loop-GivenUp` say how much is
-- enough. Every other loop is over a list.
--
-- Assumed of the host: an exit code of 0 from `pfctl -f`, launched and not timed out, means that the
-- ruleset was replaced, and a run that ends otherwise replaces it or not, as `Os.replaced` says;
-- configured directories are absolute paths, so that the tests `is_absolute` pass; nobody else writes
-- to the files; a crash leaves what has been renamed, linked or unlinked. The authorizer, the
-- confirmation gate and the health probes are interfaces of the source and parameters of the model,
-- `Service`; an exception that one raises is `none`.
--
-- Not modelled: the loops that retry a system call on EINTR or a short transfer; what is done with
-- file descriptors; the mutex by which activations exclude each other (a run is one action); the
-- preparation of candidates, the start of the listener on its socket path, the configuration and the
-- entry point of the daemon, the process runner and the command line.
mod Prelude
pub mod Text
pub mod Host
pub mod Firewall
pub mod Logging
pub mod Controller
pub mod Daemon
