-- ===== src/Lib.antt =====
-- A model of HomeCare 360's back end (apps/auth, apps/manager, apps/media, apps/gateway,
-- libs/common) and proofs about it.
--
-- The program is a set of NestJS services behind a gateway. The auth service opens accounts, sends
-- one-time codes, issues and exchanges tokens; the manager service changes the verification status
-- of service providers; the media service signs addresses for uploads; guards decide which
-- requests reach a handler. Auth, managers and guards share one database through Prisma.
--
-- Common    Boolean tests, lists and texts that the other modules share.
-- Data      the rows and the enumerations (libs/common/src/models, libs/common/src/constants). Audit
--           columns and columns that no modelled code reads are left out; times are milliseconds.
-- Errors    what is thrown (apps/auth/src/auth.error.ts, apps/manager/src/manager.error.ts), and the
--           tests on Prisma errors of libs/common/helpers.ts.
-- Platform  what is called and is not code of the repository: Prisma's queries, jsonwebtoken, bcryptjs,
--           otpauth, resend, the clock, the random sources, the configuration. A record of functions
--           that each operation takes as a parameter; every call is given the number of calls made
--           before it, so that nothing is assumed to answer the same way twice. Platform/Schema holds
--           the unique keys, column lengths and defaults of prisma/schema.prisma; a create is told
--           whether the rows that it refers to are stored. Platform/Tables and Platform/Sound
--           the documented behaviour that theorems assume: tables are sound where a query that
--           answers has done what Prisma says it does, and live where a query fails only for a
--           reason that Prisma documents.
-- World     the state: the tables, the mails sent, the role ids that SharedRoleRepository remembers and
--           the count of calls; and an async function as a function of the state that returns or
--           throws, keeping what it wrote. Promise.all runs its promises to their end one after the
--           other, in any order that the platform chooses, and the state is the one when all have
--           settled; finer interleavings are not modelled.
-- Services  token.service.ts, hashing.service.ts, 2fa.service.ts and email.service.tsx.
-- Repos     auth.repo.ts and the shared repositories; Repos/Others has the methods that no service
--           calls. Repos/Laws and its neighbours say what a call that returned has done.
-- Helpers   libs/common/helpers.ts: generateOTP, the text of a number, the names of jobs and rooms, and
--           adjustDateToWeekday.
-- Auth      auth.service.ts, a definition for each method, and the theorems by subject;
--           Auth/Google is google.service.ts over the Google client as a parameter.
-- Guards    the four guards of libs/common/src/guards, as functions of the request and the state.
-- Managers  managers.service.ts and managers.repo.ts.
-- Gateway   the routes of apps/gateway/src, their messages and the patterns that the controllers of the
--           services handle. Gateway/Requests is each request from the body that came to the reply: the
--           validation pipe, the payload (Gateway/Payloads), the body that the controller of the service
--           reads of it, the method of the service, and handleZodError on what it throws (Gateway/Wire).
--           The framework is a parameter: what the client of a service is rejected with where a handler
--           throws. A service that cannot be reached is not modelled. The services call connectMicroservice without inheritAppConfig, so that the global
--           pipes and guards of their HTTP side do not apply to messages.
-- Media     media.service.ts, S3.service.ts and the pipes of apps/media/src, over the storage SDK and the
--           file system as parameters.
-- Schemas   the zod schemas of the bodies (auth.model.ts, manager.model.ts and the models that they pick
--           fields of), as the source builds them; the library is a parameter, which reads a body as
--           its documentation says. Schemas/Environment is envSchema.ts and its use in config.module.ts.
-- System    the services together, on the tables that they share: what holds of the tables between two
--           requests (Consistent), what each query and each request does to it (Rows, Tables, Reads,
--           Roles, Sessions, Accounts, Others), runs of requests at the services (Runs) and at the
--           gateway (Entries), and the refresh tokens as a ledger of sessions that forgets rows, ids
--           and order (Ledger, Refines).
-- Tests     a platform in memory that behaves as the theorems ask, and the theorems at concrete states.
--
-- The decimal text of a number, which stands for String of JavaScript, runs on fuel one above the number,
-- which has at most that many digits; no other definition runs on fuel. The numbers of a body are natural
-- numbers.
--
-- Not modelled: the start of the services and their modules, the schemas of answers, auth.context.ts, the
-- gateway's request for the address of Google's login; log output.
pub mod Common
pub mod Data
pub mod Errors
pub mod Platform
pub mod World
pub mod Services
pub mod Repos
pub mod Helpers
pub mod Auth
pub mod Guards
pub mod Managers
pub mod Gateway
pub mod Media
pub mod Schemas
pub mod System
pub mod Tests
