-- ===== src/Lib.antt =====
-- AssayBank: a verification library for the assessment platform's own rules.
--
-- The platform draws questions from a bank, invites candidates to take assessments and guards the
-- clock of each attempt. The library models its pure rules (packages/core-domain), the marks of
-- answers (packages/grading), the links of prompts (packages/markdown), the credentials of the
-- candidate's API (apps/api/src/credentials) with their signatures (packages/auth), its guard
-- against forged requests (apps/api/src/csrf.ts), the cursors of its lists (packages/db), the
-- collaboration service of live interviews (apps/collab/src), the state behind the candidate's
-- screen (apps/candidate/src) and the single effect of a job (apps/worker/src). A module is named
-- after the part, and the modules below it after what they prove. Functions keep their names in
-- snake case: `resolveDraw` is `resolve_draw`.
--
--   CoreDomain.Attempt      packages/core-domain/src/attempt-state.ts: `transition` and its edges;
--                           Edges has the documented diagram, History the sequences of events.
--   CoreDomain.Question     packages/core-domain/src/question-lifecycle.ts.
--   CoreDomain.Deadline     packages/core-domain/src/deadline.ts, with the doubles of Prelude.Doubles.
--   CoreDomain.Shuffle      packages/core-domain/src/shuffle.ts.
--   CoreDomain.Draw         packages/core-domain/src/draw.ts: `validate_rule`, `eligible`,
--                           `resolve_draw`, which shuffles with CoreDomain.Shuffle.
--   CoreDomain.KindContent  packages/core-domain/src/kind-content.ts; the kinds are those of
--                           packages/contracts/src/questions.ts (CoreDomain.Kinds).
--   CoreDomain.Errors       packages/core-domain/src/errors.ts; Prelude.Results is result.ts there.
--   Api.SingleUse           apps/api/src/credentials/single-use.ts: `memorySingleUseStore`.
--   Api.TokenLife           apps/api/src/credentials/attempt-token.ts: the life of the token, against
--                           the deadline that CoreDomain.Deadline computes.
--   Api.Redemption          apps/api/src/credentials/redemption.ts with redemption-postgres.ts: the
--                           transaction on the rows; it mints with Api.TokenLife.
--   Api.Csrf                apps/api/src/csrf.ts: `csrfRejection`, with auth/csrf-token.ts, the cookies'
--                           names of auth/cookie-names.ts and `readCookie` of
--                           auth/oidc-org-cookie.ts beside it; the hash is that of Auth.Envelope.
--   Auth.Envelope           packages/auth/src/envelope.ts: the signed envelope of both credentials below.
--   Auth.AttemptToken       packages/auth/src/attempt-token.ts; Auth.Claims has what its schema and that
--                           of the ticket share.
--   Auth.WsTicket           packages/auth/src/ws-ticket.ts.
--   Auth.Token              packages/auth/src/token.ts: the hash of a token.
--   Collab.Protocol         apps/collab/src/protocol.ts: the frames on the wire.
--   Collab.TicketStore      apps/collab/src/ticket-store.ts; its map is that of Api.SingleUse.
--   Collab.Handshake        apps/collab/src/server.ts: `authorise`, with Auth.WsTicket and
--                           Collab.TicketStore.
--   Collab.Rooms            apps/collab/src/rooms.ts: `Room` and `RoomRegistry`.
--   Collab.Server           apps/collab/src/server.ts: the connections and their upgrade; Collab.Frames
--                           has `handleFrame`, Collab.Lifecycle the heartbeat and the shutdown, and
--                           Collab.Steps puts them together as the turns of the event loop.
--   Candidate.Connection    apps/candidate/src/net/connection.ts: `ConnectionMonitor`.
--   Candidate.Countdown     apps/candidate/src/time/countdown.ts: `CountdownClock`.
--   Db.Cursor               packages/db/src/cursor.ts: the cursors of the lists.
--   Grading.Mcq             packages/grading/src/mcq.ts, with the rounding of round.ts there.
--   Grading.Compare         packages/grading/src/compare.ts: `compareCase`.
--   Grading.ShortAnswer     packages/grading/src/short-answer.ts, with Grading.Compare.
--   Grading.Aggregate       packages/grading/src/aggregate.ts: `scoreSubmission`.
--   Worker.JobId            apps/worker/src/idempotency.ts: `assertBusinessKey` and `toJobId`.
--   Worker.Idempotent       the same file: `idempotent` and `MemoryIdempotencyStore`, as the steps of
--                           the runs of a storage key between their awaits, in any interleaving.
--   Worker.DeadLetter       apps/worker/src/dlq.ts: failed jobs, with the budgets of queues.ts and its
--                           listener of the `failed` events.
--   Markdown.Url            packages/markdown/src/url.ts: `safeUrl`.
--   Prelude                 shared types, tests, lists, texts and numbers.
--
-- How the program is modelled. Objects with private fields are records, and a method is a
-- function from the record to the next one. Failures are values of `Result`; their messages are
-- left out. Counts, instants and durations are natural numbers, and a subtraction that could go
-- below 0 stands behind the test that the code has, or yields 0 where the code has `Math.max(0,
-- …)`. Where a guard tests for integers, NaN or infinities the number is a `Num`. Texts are
-- lists of UTF-16 code units. Doubles that are not negative are ratios of whole numbers, and
-- what the arithmetic does with an exact result, its rounding, is a parameter, with the
-- conditions that IEEE 754 sets on it as hypotheses (Prelude.Doubles); a mark is whole
-- millionths, which `roundScore` leaves, and only the share of passed cases in Grading.Aggregate
-- is an exact quotient. A random generator is any record of what the code sees of its numbers.
-- The hash of an invitation token is a parameter, any function from texts to texts, so that the
-- timing-safe comparison is the equality of hashes. The row lock of the redemption makes it one
-- step on the database, and the id that an INSERT returns is an argument; the two readings of
-- the clock within a redemption are one. What `JSON` makes of a recorded result is a parameter,
-- `Codec`, and that it reads back what it wrote is a hypothesis.
--
-- In packages/auth the record `Platform` is what the code takes from Node: the HMAC, base64url and
-- JSON, and the claims of a credential are a list of fields; that the encodings have no dot and read
-- back these claims are hypotheses. A `Date` beyond its range has the time NaN, `none`, with which
-- every comparison is false. In apps/collab a byte is a number, rooms stand in a heap because the
-- registry, the peers and a timer share them, and a peer is its number. A turn of the event loop is a
-- step whose effects on the sockets are a list; what Yjs does is the parameter `Yjs`, and what `URL`
-- makes of a request is part of it. What ECMAScript makes of the text of an answer (`Number`,
-- `toLowerCase`, `RegExp`) is the parameter `Engine`, and the numbers compared are whole multiples of
-- 1e-9. The payload of a job is of any type.
--
-- Bounds. The loop of the shuffle runs on as many rounds as there are entries, each of which
-- removes one. The loop that writes an integer of a frame runs on fuel, one more than the integer,
-- which is more than its bytes. Everything else recurs on its data.
--
-- Not modelled: the composition of an assessment from a role, the user interface, the SQL schema
-- and its drivers, the HTTP layer, the Valkey store, the queues of the worker but for their
-- failed jobs, passwords, permissions, the parser of Markdown, the statistics of items
-- (packages/grading/src/psychometrics.ts), configuration, metrics and logs. Of the modelled
-- files, listeners, messages for humans and the formatting of times are left out.
pub mod Prelude
pub mod CoreDomain
pub mod Api
pub mod Auth
pub mod Candidate
pub mod Worker
pub mod Collab
pub mod Db
pub mod Grading
pub mod Markdown
