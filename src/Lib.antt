-- ===== src/Lib.antt =====
-- A model of the server side of beacon-auth: sessions, accounts, and the HTTP handlers over them.
--
-- The program. A database adapter (core/interfaces.go) keeps rows of four tables. The internal adapter
-- (adapter/internal.go) turns rows into users, sessions, accounts and verifications. The session manager
-- (session/manager.go) keeps a session in up to three stores: signed cookies, Redis, and the database
-- through the internal adapter. The handlers (auth/handlers.go) sign users up, in and out with the
-- internal adapter and the session manager. The middlewares (middleware/session.go, core/auth.go) put the
-- session of a request into its context and refuse a request without one. Plugins (plugin/) add endpoints,
-- hooks and middleware through a registry; plugins/ has three of them, for email and password, two-factor
-- codes and OAuth, which act on the internal adapter and the session manager. The SQL adapters
-- (adapters/postgres, mysql, sqlite and mssql) turn queries into statements. A request to one
-- of several tenants is told by its host (integrations/). The wrapper of adapter/factory.go fits an adapter
-- to a database with other names and types. An instance (beaconauth.go, core/config.go) ties a configuration
-- to a session manager. Passwords are hashed by crypto/hash.go.
--
-- The files.
--   Prelude, Prelude/*: library names, Boolean tests, lists, integers, and a Go map as a list of pairs.
--   Core/Value: the values of an interface{} in a row, and times. Core/Types, Core/Query: the records of
--     core/types.go, core/errors.go and core/interfaces.go. Core/World: the state that an operation
--     passes along (database, cache, clock, random draws) and the monad of operations that may fail.
--     Core/Contract: what the callers of an adapter rely on. Core/Encoding: base64 and UTF-8.
--     Core/Split: strings.Split.
--   Memory, Memory/*: adapters/memory/memory.go, one function per method; Compare, Where and Sort are its
--     helpers; Refines relates it to the contract; Results is about what the methods return.
--   Internal, Internal/*: adapter/internal.go, one function per method; Rows has the mapTo functions, Data
--     the rows that are written; Sessions, NewSession, Revoke and Accounts are about what is found.
--   Session/Config: session/types.go. Session/Cookie, Session/Redis, Session/Database: the three stores.
--     Session/Stores, Session/Random and Session/Manager: session/manager.go; the child modules of
--     Session/Manager follow Create, Get and Delete, and Steady the clock; Session/Redis/Commands has what
--     is relied on of Redis.
--   Auth, Auth/*: auth/handlers.go; Http has requests, responses and the checks of a request.
--   Middleware: middleware/session.go, core/context.go and the requests' side of core/auth.go; Protected is
--     about the requests that reach a handler.
--   Plugin, Plugin/*: plugin/plugin.go, plugin/manager.go and plugin/hooks.go; Registered is about Initialize,
--     Hooked about the hooks.
--   Plugins, Plugins/*: the directory plugins/; Context has core.AuthContext and the answers. EmailPassword is
--     plugins/emailpassword/emailpassword.go; TwoFactor and, for its rows, FactorRows are
--     plugins/twofa/twofa.go; OAuth is plugins/oauth/oauth.go with the interface of
--     plugins/oauth/providers/provider.go, and GitHub and Google are providers in plugins/oauth/providers,
--     with what they share in Requests. There is one function for each method and one for each way on
--     from a call; their child modules are about what is answered.
--   Sql, Sql/*: the SQL adapters. Build has the parts of statements that they share but for their
--     placeholders, Driver the drivers and the transactions; Postgres with its child Tx, Mysql, Sqlite and
--     Mssql are the four adapters, one function per method. Text, Digits, Numbered, Statements, Agree, Blank and
--     Supported are about the statements, Outcomes about the methods.
--   Factory, Factory/*: adapter/factory.go, the wrapper that renames the fields of the rows of an adapter and
--     transforms their values; Renamed, Restored and Unmapped are about the rows and queries of the wrapper.
--   Tenant, Tenant/*: integrations/http/tenant.go, which the integrations chi and mux repeat; Tenant/Fiber is
--     integrations/fiber/tenant.go, which echo and gin repeat but for the isolation of tenants. Labels,
--     Required and Keyed are about hosts and requests.
--   Instance: core/config.go, the constructor in core/auth.go, and beaconauth.go; Made is about the instances
--     that it makes and the sessions that they accept.
--   Crypto, Crypto/*: crypto/hash.go; Scan has its two calls of Sscanf, Hashed is about Hash and Verify.
--   Tests: runs at concrete inputs.
--
-- Conventions. A method of Go takes the state and returns the result with the next state. An error is the
-- value err: ErrUserNotFound and ErrSessionNotFound are told apart, every other error is its text, and a
-- wrapped error keeps the text it was wrapped in. A time is a number of nanoseconds with the rest of what
-- its printed form depends on; a duration is an integer. The clock and rand.Read are streams in the state,
-- so that every reading is a fresh one. A range over a map of a row meets its pairs in the order of the
-- list. GET and SET of Redis are carried out at the next reading of the clock, and a time to live is kept
-- to within a millisecond; the cursors of SCAN are the server's own. A statement of SQL is its text with
-- its arguments. A handler that panics drops the connection, which is the answer `aborted` with status 0.
--
-- Bounds. A printed integer has at most 20 digits, an int64 at most 19; the rounding of an integer to a
-- float64 drops at most 11 bits of a 64-bit number. The scan of the Redis keys runs on fuel, and its
-- result tells when the fuel was not enough; as much fuel as there are pages is.
--
-- Parameters: the printed form of a time, the JSON codecs, base64 decoding and HMAC of the cookie store,
-- the Redis client, Argon2 with the base64 of its hashes, pgx and database/sql, net/url, net/http,
-- SHA-256, what sort.Slice makes of more than twelve elements, the RFC 3339 form of a time, TOTP,
-- hexadecimal digits and the lower case of a text. The password hasher and the provider of OAuth are
-- interfaces of the program, and parameters of the code that calls them.
--
-- Not modelled: float64 and []byte values in rows; the saturation of durations and the times before year
-- 1; the order in which sort.Slice leaves more than twelve middlewares of equal priority; JSON data with a
-- null session, where the stores panic; AuthError; the router of an instance and the parts of its
-- configuration that the core does not read. The MongoDB adapter is filters in the driver's own format;
-- the providers Apple and Discord are calls over HTTP behind the interface that is modelled; the logger,
-- the token generator, the rest of the integrations with web frameworks and the command line are left out,
-- since the core does not call them.
mod Prelude
pub mod Core
pub mod Memory
pub mod Internal
pub mod Sql
pub mod Session
pub mod Auth
pub mod Middleware
pub mod Plugin
pub mod Plugins
pub mod Factory
pub mod Tenant
pub mod Instance
pub mod Crypto
mod Tests
