-- ===== src/Lib.antt =====
-- A model of the TypeScript of the Mirror copy-trading system: the extension server that runs inside
-- a trusted execution environment, with the matching engine that turns an encrypted signal of a
-- lead trader into swap instructions for the followers, the agent that scores the leads, and the
-- monitor of payments.
--
-- The parts, and the files that model them (paths from the repository's root):
--   Js        what the code uses of JavaScript: texts as lists of UTF-16 code units, numbers as the
--             exact values of doubles, `bigint`, UTF-8, `JSON.parse`, `JSON.stringify`, calls that
--             may throw, and (Task) asynchronous code over services.
--   Base      fce-matching-engine/typescript/src/base: Encoding is encoding.ts (hexToBytes,
--             bytesToHex, stringToBytes32Hex, bytes32HexToString), Framework is types.ts (the
--             registry: handle, lookup, normalize), Server is processAction of server.ts, Queue is
--             its serialize, Greeting is handleSayHello and handleSayGoodbye of app/handlers.ts.
--             Node is node.ts, and Base64 what its Buffer calls do.
--             Flow is the shape of code with early returns and exceptions: a step goes on, returns
--             a result, or throws.
--   Matching  fce-matching-engine/typescript/src/app: OutcomeLog is outcomeLog.ts; Signal, Trade,
--             Swap, MockVenue and Match are handleMirrorMatchStageB and buildMockVenueStageB of
--             handlers.ts, TopUp is handleMirrorTopUpV1, Handlers is the state, register and
--             reportState with config.ts, and Server is handleRequest, processOutcomeLog,
--             processState and serve of base/server.ts.
--   Agent     fce-ai-agent/typescript/src/app: Scoring is scoring.ts, Classify is classify.ts, Drift
--             is drift.ts with its history, Health is health.ts, Synthetic is synthetic.ts; Series
--             holds the sums and the sort that scoring and classifying share. Handlers and Report are
--             handlers.ts (handleScoreV1, fetchOutcomeLog), Server is base/server.ts.
--   Relayer   scripts/relayer. Of xrpl-monitor.ts, Monitor is the statuses and the duplicate guard
--             (persist, getStatus, processPayment, the subscription handler of watch), Monitor/Run is
--             runProcessPayment, Operator is executeInstructionOnMac with decodeMacRevert, and
--             StatusServer is startStatusServer. Of fdc.ts, Wire is the requests to the verifier
--             (toUtf8Bytes32, prepareEvmTxRequest), Fdc is requestAttestation with its retries, Fdc/Gate
--             its attestationGate, DaProof is waitForDaProof, EvmTx is decodeEvmTxResponse. Of
--             fdc-payment.ts, Payment is toPaymentProofArg and Attest is attestXrplPayment (and
--             relaySwapProof of fdc.ts). Abi holds the values that an ABI decoder gives, as viem and
--             ethers shape them. Web2Json and Market are fdc-web2json.ts. Onboarding is a run of a
--             payment with the client and the executor that it calls, on one chain.
--             TeeProxy is tee-proxy.ts and Pause is pause-stale-matching-tee.ts.
--   TypesServer  scripts/types-server/decodeServer.ts (decodeShape and its route).
--   Watch     scripts/ai-agent: Alerts is alert-webhook.ts, Drift is drift-monitor.ts, Health is
--             health-monitor.ts, Loop is the loop that the two share, Publish is publish-scores.ts.
--   Frontend  frontend/src: Alerts is app/api/alerts/route.ts, Signal is lib/encrypt.ts.
--
-- The server reads a request, finds the handler of its two identifiers in the registry, and runs it
-- on the state; a matched signal appends one record to the outcome log, which an internal route
-- serves to whoever holds the token. The monitor turns a payment on the XRP ledger into an
-- attestation and an execution on Flare; the proxy stands before the engine. Code that waits for
-- other services is a Task: it passes a world that only the parameters read and change, notes each of
-- its acts in order, and returns or throws, so that theorems speak of the acts of a run. The modules
-- of a name below a component (Bound, Checks, Sizing, ...) hold what is proved of it, and the modules
-- Tests its concrete runs.
--
-- Bounds: numbers are whole numbers without a bound where the code has `bigint`, and exact doubles
-- where it has `number`. `JSON.parse` and the printing of numbers are recursions on fuel taken from
-- the length of the text or the size of the number. Loops over lists are structural. The bounded
-- loops of the relayer (40 looks at the nonce, 5 attempts, 12 prepared requests, 36 looks at the
-- layer) recurse on these numbers; the loop that waits for a round to be final takes fuel, and 50
-- looks are enough, since each round of it sleeps for ten seconds and it gives up after eight
-- minutes. A monitor runs for so many cycles of fuel.
--
-- Not modelled, and taken as parameters (Matching.Host): the environment, the clock, the package viem
-- with the chain behind it, the ABI decoder, the tee-node and URLSearchParams; for the agent
-- (Agent.Host) also the answer of the matching engine to fetch; for the relayer and the monitors
-- (Relayer.Chain, Operator.Mac, Monitor.Run.Services, TeeProxy.Proxy, Pause.Machines,
-- Watch.Drift.Watcher, Watch.Health.Ward, Watch.Publish.Leaderboard, Frontend.Signal.Browser) the
-- chain, the timer, fetch and the path that `new URL` reads; a request that is not a text is refused
-- as viem refuses it. Not modelled at all: sockets and headers, the wording of errors that the engine
-- or a package gives, a `toString` that a JSON object may name itself, and a `__proto__` key in JSON.
-- A handler is one step of the state; that handlers run one after the other is modelled in
-- Base.Queue, where calls, starts and ends interleave.
pub mod Prelude
pub mod Js
pub mod Base
pub mod Matching
pub mod Agent
pub mod Relayer
pub mod TypesServer
pub mod Watch
pub mod Frontend
