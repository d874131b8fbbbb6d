-- ===== src/Lib.antt =====
-- opendesk-remote: the decisions of the control server of a remote desktop, modelled and proved.
--
-- The server (api/internal) issues signed, short-lived, one-time grants for relays, decides which
-- user may reach which device, merges the permissions of control roles and the settings of
-- strategies, logs users in, and keeps a queue of client builds that a worker runs; a repository
-- keeps the rows. The grants' service, the login's service, the worker and the handlers each take
-- the repository: the first two as an interface, the last two as the memory repository.
--
--   Prelude         numbers, lists, texts, Go's maps and errors, instants
--   Models          api/internal/models/models.go: the rows
--   Signing         what the token code uses of Go's library: base64, HMAC, JSON, a record with laws
--   RelayGrant      api/internal/relaygrant/service.go: IssueWithContext is `issue`,
--                   ValidateWithContext is `validate`, RevokeWithContext is `revoke`
--   Access          api/internal/access/evaluator.go: Evaluate is `evaluate`
--   ControlRole     api/internal/controlrole/evaluator.go: Evaluate is `evaluate`
--   Strategy        api/internal/strategy/resolver.go: Resolve is `resolve`
--   Repository      api/internal/repository/memory.go: `Memory`, its methods under their names in
--                   lower case with underscores; Repository/Builds/Jobs takes sequences of calls
--   Auth            api/internal/auth/service.go: Login is `login`, AuthenticateRequest is
--                   `authenticate_request`, Logout is `logout`
--   Middleware      api/internal/middleware/middleware.go: the rate limiter, RateLimit is `rate_limit`
--   Http            what handlers share: answers (api/internal/httpx), the audit event of a request
--   PolicyHandlers  api/internal/policies/handler.go: access rules, control roles, strategies
--   UserHandlers    api/internal/users/handler.go: users and user groups
--   DeviceHandlers  api/internal/devices/handler.go: devices, device groups, effectiveStrategy
--   Buildspec       api/internal/builder/buildspec.go and builder/internal/buildspec/buildspec.go
--   Worker          api/internal/buildworker: RunOnce is `run_once`, buildSpecJSON `build_spec_json`
--   BuildHandlers   api/internal/builds/handler.go: profiles and jobs
--
-- State is passed explicitly, and a call returns the state that it leaves with its result; errors are
-- values. The clock's readings and the random bytes are arguments. Integers are those of 64 bits:
-- sums that can wrap are written with their remainder. Every loop is a recursion over a list, so that
-- no fuel is needed. A method of the repository holds the lock from its first read to its last write
-- and is one step. A validation of a grant is two steps, which Validate/Races takes apart; the
-- creation and the cancellation of a build job are two, its retry three, and a run of the worker
-- several: what other requests do in between is an argument, `meanwhile`; of a run of the worker that is
-- what they do while the builder runs. The reads of an effective strategy are taken from one state. A handler is a function of the state, the readings of the
-- clock, the number in its path and the decoded body, with `none` for a body that does not decode. An
-- error of a repository that the memory repository cannot answer with is kept where the code has a
-- branch for it.
--
-- Not modelled: the SQL repository; of the handlers, the routing by path and method, the
-- listings, the download of artifacts and of logs, and the packages for address books, relays,
-- settings and setup; of the middleware, request ids, logging and headers; the worker's Doctor;
-- the builder's runners, the command lines and the administration interface.
pub mod Prelude
pub mod Access
pub mod Auth
pub mod BuildHandlers
pub mod Buildspec
pub mod ControlRole
pub mod DeviceHandlers
pub mod Http
pub mod Middleware
pub mod Models
pub mod PolicyHandlers
pub mod RelayGrant
pub mod Repository
pub mod Signing
pub mod Strategy
pub mod UserHandlers
pub mod Worker
