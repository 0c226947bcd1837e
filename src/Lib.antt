-- ===== src/Lib.antt =====
-- HostSeal, a control plane and an agent for fleets of hosts on which the hosts decide. The control
-- plane (internal/server, internal/store) queues jobs; an agent (internal/agent) polls it, and a job
-- is executed only if the agent's own checks accept it: the operation is in a closed catalogue
-- (internal/intent), its parameters decode, a key that the host trusts signed it
-- (internal/signing), it is not a replay, and the host's own policy (internal/policy) permits it.
-- Privileged operations go to root helpers over a socket (internal/privsep).
--
-- - Base: what the other modules share. Names that the program only compares are `String`; texts
--   that it walks are lists of bytes. `int64` and `time.Duration` are `Base.Int.ℤ`, with the
--   wrap-around and the saturation written out where the source has them.
-- - Json: values of `encoding/json` and how its decoder fills the fields of a struct.
-- - Intent: internal/intent/intent.go, profile.go and params.go. Names is the vocabulary, Decode has
--   the decoders, Catalogue `Lookup` and `Decode`; Units, Nothing and Safety hold the proofs.
-- - Policy: internal/policy/window.go (Clock, Parse, Window), policy.go (Rules), decide.go (Decide).
--   Opening and Next state what a window means by its openings (NextUtc in UTC, Zones moves it to
--   other zones), Rounds what the loop over weekdays does, Permits and Sovereignty what the policy
--   means; Ranks and Age are about permissions and the age limit.
-- - Signing: internal/signing, the set of trusted keys, and its file (Parse); Trusted says which keys
--   a file stands for.
-- - Agent: internal/agent/nonces.go (Nonces), execute.go (Accept for `accept`, Run for `Run`),
--   internal/protocol/protocol.go (Job) and the messages of internal/privsep/privsep.go (Run).
--   Sound, Replay, Once, Refusals and Orderly hold the proofs. Beat is `buildHeartbeat` of agent.go.
--   Spool has the files of results.go, Delivery their way to the server; Reports, Kept and Lossless
--   show that none is lost. Enrol has enroll.go and bootstrap.go; Templates and ApplyOnce are about
--   the template that an enrolment runs.
-- - Helper: internal/privsep/privsep.go (Endpoints), internal/helper/helper.go and
--   internal/privsep/server.go (Perform). Outcome, Sovereignty and Agreement hold the proofs, the
--   last of them that the agent and the helper decide alike.
-- - Canonical: internal/canonical/canonical.go (Order, Strings, Write) and the document that
--   `SignedPayload` builds (Signed). Reader and Normal say what a canonical text stands for; ReadText,
--   Numbers, Texts, Sequences and RoundTrip hold the proofs.
-- - Store: internal/store/memory.go, the job tables (Jobs), the hosts and certificates (Hosts), and
--   the tenants and enrolment tokens (Tenants), with State for the rows. Machine has the operations
--   of all tenants as steps, Quiet those that touch no job. Sound is the invariant of the job
--   tables; Keeps, Claims and Removal show it for the operations, Reachable for all their sequences;
--   Delivery, AtMostOnce and Outcomes have what follows, and Limits the limits
--   on hosts and certificates. Apart says what one tenant sees of the store, Isolation, Separation
--   and Deletion that the operations leave it to the others, Tenancy that their sequences do; Tokens
--   is about the redemption of a token, with Spent and SameTokens for what the operations leave of it.
--   Templates has the provisioning templates of internal/store/memory_templates.go; Numbering, Revised
--   and Versions have the proofs about the numbers of their versions. That they go with their tenant
--   when it is deleted is not part of the model.
-- - Server: internal/server/jobsapi.go, the creation and the release of jobs (Jobs, with
--   Build for the tests of a request and the job that is made of it). Routine follows a
--   job that the server signs to the agent, Created and Handlers say what the two handlers leave.
--   Heartbeat and Results are two handlers of internal/server/agentapi.go, behind the decoder of
--   internal/server/server.go. Beats has the loop of the agent with the server over a network that
--   loses messages, OneBeat, Settling and Unsettled follow the digests through it.
-- - Alerts: the alert rules and states of internal/store/memory_observability.go (Tables) and what
--   internal/server/alerts.go does for one host (Evaluate); Paced has the proof about notifications,
--   over the events of Events; Elsewhere says that an event concerns one key.
-- - Auth: internal/auth/accounts.go over internal/store/memory_accounts.go (Sessions). Lifetime has
--   the invariant of the sessions, Windows what it means for an operator, Ended what a sign-out
--   means.
-- - Tests: the theorems at concrete inputs, and runs of the definitions.
--
-- An instant is a number of nanoseconds, 0 the zero `time.Time`, and day 0 a Monday. A location is
-- a pair of conversions between instants and civil time; the theorems on windows are about zones at
-- a fixed distance from UTC, without summer time, since a window of nearly a day that opens before a
-- short day of 23 hours can last past the next day, where `Contains` no longer looks.
-- What a call reads from a clock, a file or a socket is an argument. Parameters stand for
-- `filepath.Match`, `time.LoadLocation`, the TOML decoder, the check of a signature and the decoder
-- of a key, canonical bytes as acceptance uses them, base64 and `json.Marshal` (the records `Host`,
-- `Codec` and `Format`), the `float64` that `encoding/json` makes of a number, the operation of a
-- helper, the bytes of a name and the print of an instant;
-- the theorems ask nothing of them, but for the one on heartbeats that `float64` keeps the numbers
-- of the documents. A password and the hash of a token are what a sign-in is given.
-- The texts of errors and reasons are not kept, only which error it is.
--
-- No definition runs on fuel that could be short: `NextOpen` looks at eight days, as the source does,
-- and a range of weekdays takes at most seven rounds. The reader of Canonical, which is only there
-- to state what the writer does, is given more fuel than its text is long.
--
-- Not modelled: the database, the HTTP handlers but those of jobs, heartbeats and results, the user
-- interface, the collection of facts, the commands, the delivery of notifications, and the
-- cryptography itself: they are I/O, glue or libraries.
pub mod Base
pub mod Json
pub mod Intent
pub mod Policy
pub mod Signing
pub mod Agent
pub mod Helper
pub mod Store
pub mod Alerts
pub mod Auth
pub mod Server
pub mod Canonical
mod Tests
