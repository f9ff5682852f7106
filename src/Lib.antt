-- ===== src/Lib.antt =====
-- kata-tee-runner: the sealed room that runs a miner's agent with the miner's decrypted provider
-- keys and answers with a report that an attestation quote covers.
--
-- The parts, and the files that model them:
--
-- * room/broker.py, the credential broker, which holds the keys of open jobs and spends them on
--   reviewed operations. Broker/Spec.antt has the operations and their checks, Broker/State.antt
--   the state and the life of a job (`open_job`, `issue`, `close_job`, `close`),
--   Broker/Dispatch.antt `_authorize`, `dispatch`, `_record`, `quota` and `records`,
--   Broker/Http.antt the handler of the HTTP surface, Broker/Sent.antt what it sends;
--   Broker/Outcomes.antt says what an outcome demands. Job objects stand on a heap, since a call in
--   flight keeps its reference to a job that has been closed. `dispatch` is `admit`, which is what
--   it does under the lock, the handler's call, and `write_record` with `answer`; Broker/Steps.antt
--   makes each of them, and each other method that writes, one step of a transition system, so that
--   a run is any interleaving.
-- * room/auth.py, the signature, the time window and the store of used nonces of a signed request:
--   Auth.antt, with theorems in Auth/Window.antt, Auth/Replay.antt and Auth/Gap.antt.
-- * room/profile.py, the credential contract that a subnet's profile declares: Profile.antt; and
--   the time that an agent is granted: Profile/Timeout.antt.
-- * room/sealing.py and room/ids.py, the parsers of a decrypted credential: Sealing.antt.
-- * room/attest.py and verify_run.py, the binding of a report into a quote and the check of it:
--   Attest.antt, Attest/Hex.antt, Attest/Verified.antt.
-- * room/server.py, the `/run` handler, which calls the four above: Server/Interface.antt has its
--   data and what it calls elsewhere, Server.antt the handler step by step, Server/Guarded.antt,
--   Server/Checked.antt, Server/Evidence.antt and Server/Answers.antt the theorems.
--   Server/Submission.antt puts the model of room/bundle.py in the place of the handler's call of
--   it, with the theorems in Server/Submitted.antt; Server/Summarized.antt does so with the
--   gateway's summary of a job. Server/Endpoints.antt has the other endpoints, of which
--   `/pull-test` runs the docker commands of Network/Chains.antt; Server/Pulled.antt is about it.
-- * room/bundle.py, the binding of a credential to the files of a bundle: Bundle.antt, with the
--   inversion of its framing in Bundle/Frames.antt and theorems in Bundle/Binding.antt and
--   Bundle/Stable.antt. The extraction of a bundle: Bundle/Extraction.antt, with the theorem in
--   Bundle/Extracted.antt.
-- * room/bounded_http.py, the connection slots of the broker's server: BoundedHttp.antt, and
--   BoundedHttp/Connections.antt with the server and its threads as a transition system;
--   BoundedHttp/Waiting.antt has `wait_for_release`, and BoundedHttp/Overloaded.antt the response
--   503.
-- * room/inference_gateway.py, the gateway through which an agent uses a provider with its own key:
--   Gateway/Route.antt has the signed route, Gateway/Providers.antt the configured providers,
--   Gateway/Headers.antt the outgoing request, Gateway/Usage.antt the reported tokens,
--   Gateway/Forward.antt the handlers, each as the sequence of its effects, and Gateway/Status.antt
--   the record of outcomes and the summary that the `/run` handler attests, Gateway/Recorded.antt
--   what the POSTs leave in that record, with the theorem in Gateway/Recorded/Counted.antt,
--   Gateway/Timing.antt the timeout and the pause before a retry.
-- * room/inference_network.py, the sealed network on which agents run: Network/Docker.antt has its
--   docker commands, Network/Chains.antt the chains of them, Network/Added.antt,
--   Network/Closed.antt and Network/Cleanup.antt the theorems. Network/Services.antt starts the
--   gateway's process and the broker's server. The URL that it gives to an agent carries the route
--   of Gateway/Route.antt.
-- * kata_seal.py, the miner's tool: KataSeal/Keys.antt loads the keys, KataSeal/Room.antt verifies
--   the room, KataSeal/Main.antt puts them together, and KataSeal/Files.antt writes the sealed
--   text. KataSeal/Opened.antt follows this text into the parsers of Sealing.antt,
--   KataSeal/Written.antt is about the file system, and KataSeal/Honest.antt about the room's
--   `/pubkey` and the tool's check.
--
-- Prelude and its children hold what the program takes from Python: dicts as association lists in
-- insertion order, integers, texts by code points, JSON values, exceptions as results, `int()` of a
-- text of ASCII digits, which Prelude/Decimal.antt shows to invert `str()`. Tests and its children
-- run the code at concrete inputs.
--
-- Parameters stand for code outside the repository: HMAC, SHA-256, the canonical JSON and
-- `json.loads`, the decryption, the quote, the handlers of a profile's operations and the profile
-- itself, the parsing of URLs, `str.format`, `float()` and `json.dumps`, a provider's answers, the
-- docker daemon, `base64`, `tarfile` and the file system, the environment, and the libraries that
-- verify a quote and encrypt. The file system of kata_seal.py is a dict of files, whose calls raise
-- or have their effect; a line of the gateway's record is written whole or lost, and the record is
-- read whole or not at all. The `/run` handler takes the extraction with the binding, and the
-- summary of a job, as members of its `World`; Server/Submission.antt fills the former,
-- Server/Summarized.antt the latter. A JSON object is taken to have each name once, as Python's
-- dict has. All recursion is on lists and texts; the one fuel, in `decimal`, is the number itself
-- plus one, which is at least its number of digits.
--
-- Not modelled: room/dstack.py, which constructs the client of a library; the argument parser of
-- kata_seal.py; the texts of exceptions in responses; the sockets, with their timeout and their
-- failures while a response is sent; the log; the `__repr__` methods. Waits and pauses are given by
-- their length or by how they end, not by a clock that runs.
pub mod Prelude
pub mod Broker
pub mod Auth
pub mod Profile
pub mod Sealing
pub mod Attest
pub mod Server
pub mod Bundle
pub mod BoundedHttp
pub mod Gateway
pub mod KataSeal
pub mod Network
pub mod Tests
