-- ===== src/Lib.antt =====
-- A verification development for chuvar: a memory and capability server in Go under backend/.
--
-- The program. A reviewer grants agents scopes: memory scopes, under which facts are read and
-- proposed, and capability scopes, under which brokerd signs git commits. Agents only stage
-- requests for grants and diffs to the facts; a reviewer's decision makes a grant or a fact. The
-- store keeps all of it in Postgres with an audit log. brokerd holds the capability grants in
-- memory, by the hash of their token, and drops them when they are revoked.
--
-- The files.
--   Prelude           names that the libraries give, Boolean tests, lists, Go strings as bytes, Go
--                     maps as lists of pairs, Go's errors as results
--   Scope             backend/internal/scope/scope.go: Scope, Validate, ValidateCapability,
--                     ValidateMemory, Covers, AnyCovers, Missing, Satisfied, Dedupe
--   Store.Types       backend/internal/store/types.go and the rows of store/sqlcgen/models.go
--   Store.Tables      the transaction of a method: it reads and changes the tables and, on an
--                     error, leaves them as they were
--   Store.Audit       store/audit.go: logAudit
--   Store.Depth       store/grants.go (depthOrder, depthRank, depthName) and store/facts.go
--                     (effectiveDepth)
--   Store.Grants      store/grants.go: CreateGrant, RevokeGrant, RenewGrant, GrantedScopeDepths
--   Store.Requests    store/grant_requests.go: RequestGrant, ApproveGrantRequest, DenyGrantRequest
--   Store.Facts       store/facts.go and store/store.go: SearchFacts, toVectorParam
--   Store.Diffs       store/staged_diffs.go: ProposeDiff, CommitDiff, RejectDiff
--   Store.Listing     store/grants.go: ListGrants, ListGrantsPage; store/staged_diffs.go:
--                     ListStagedDiffsPage, ListStagedDiffsBounded; and api/pagination.go: nextCursorFor
--   Store.History     sequences of calls of the store's methods, in any order
--   Broker.Cache      backend/internal/broker/cache.go: apply, Remove, Lookup
--   Broker.RateLimit  broker/ratelimit.go: Allow
--   Broker.Commit     broker/commit/commit.go: Parse
--   Broker.Sshsig     broker/sshsig/sshsig.go: Sign
--   Broker.Signing    broker/broker.go: Handle, Preflight, Sign, checkScope
--   Approver          backend/cmd/approver/model.go: the list of pending items and its selection
--   Base64            encoding/base64: RawURLEncoding, RawStdEncoding and StdEncoding, as documented
--   Custody           backend/internal/custody/custody.go: NewKey, Seal, Open, Wrap, Unwrap
--   Auth.Action       a step on a state that may fail
--   Auth.Types        the rows of tokens and passkeys in store/sqlcgen/models.go
--   Auth.Tokens       store/reviewer_tokens.go and store/enrollment_latch.go
--   Auth.AgentTokens  store/agent_tokens.go
--   Auth.Passkeys     store/webauthn.go
--   Auth.Evolution    what all of these keep of the tables
--   Api.Types         a request, the answers that refuse, and the parts of the API
--   Api.Factors       backend/internal/api/api.go (requireAuth, verifySecondFactor,
--                     requireExistingSecondFactor, requireStrongFactor) and api/webauthn.go
--                     (verifyWebAuthnAssertionHeader)
--   Api.Minting       api/tokens.go and api/agent_tokens.go
--   Api.Passkeys      api/webauthn.go: registration, assertion and revocation
--   Api.Routes        api.go: Routes, the pattern and the wrappers of each route, and sequences of
--                     requests
--   Bouncer           backend/internal/bouncer/bouncer.go: ProposeWrite
--   Bouncer.Quota     store/rate_limit.go: CheckProposeWriteRateLimit
--   Agents            api/agent_auth.go and api/agent_routes.go: the agents' listener
--   Policies          store/signing_policies.go; and api/signing_policies.go: validateRepo,
--                     requireCanonicalRepo
--   Fixtures, Tests   concrete inputs and runs on them
-- A query of backend/internal/store/sqlcgen is a function on the tables, written beside the method
-- that calls it. The store's methods use Scope; the broker uses Scope and nothing of the store but
-- its type of times, as in the source. The API's handlers call the methods of Auth, the agents' the
-- bouncer and the store; a handler gives its answer and the state that it leaves. A request has one
-- clock, which all its queries read, and the new ids and random bytes that it uses.
--
-- Bounds. All loops are structural recursion on lists or texts, so there is no fuel, but for a
-- client that asks for page after page: as many requests as there are rows, and one more, are
-- proved enough. Numbers are natural numbers but for durations and the approver's selection, which
-- are signed, and for the 32-bit column of a TTL, whose conversion is written out with its
-- wrap-around; the lengths in an SSHSIG are four bytes. A time is in nanoseconds from Go's zero
-- time. Texts are bytes; the regular expressions are tests on bytes.
--
-- Taken as parameters, with what their documentation says of them: LIKE, pgvector and the ranking
-- of a search, SHA-256, hex, AES-GCM, the library of one-time codes, the WebAuthn library with its
-- sessions, JSON, the lower case of Unicode, the classifier and the embedder, the signing key, the
-- clock, the ids that Postgres makes, random bytes, and whether the audit row of a signature is
-- written.
--
-- Not modelled: row locks and concurrent transactions (each request to the API and each method of
-- the store is one step, so a search that embeds its query meets the same grants before and after),
-- failures of the database itself, the other listings, the form of a cursor, the API's handlers of
-- grants, requests, diffs and signing policies, CORS origins and limits of bodies, the backends
-- that keep the master key and the rows of data keys, the MCP tools, the clients, sockets,
-- configuration, the terminal, the commands' start-up, and the browser interface.
pub mod Prelude
pub mod Scope
pub mod Store
pub mod Broker
pub mod Approver
pub mod Base64
pub mod Custody
pub mod Auth
pub mod Api
pub mod Bouncer
pub mod Agents
pub mod Policies
