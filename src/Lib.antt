-- ===== src/Lib.antt =====
-- The gateway Janus, which offers HTTP APIs to language models as tools over MCP, and its web
-- portal. Modelled are the MCP server (pkg/mcp), what it is built on (pkg/redaction,
-- pkg/toolintegrity, pkg/cache, pkg/gateway, pkg/oauth, most of pkg/storage and pkg/auth), and the
-- program that an administrator's browser runs (pkg/portal/static/app.js). The server lists the
-- endpoints of the store as tools, checks the role and the scopes of a caller, compares the tool
-- with its pinned hash, masks secrets in arguments and results, calls the API through the gateway's
-- client and writes an audit entry. The portal keeps a session, loads connections, endpoints, audit
-- entries, secrets, client tokens, settings and metrics from the portal's API, shows them, and
-- sends what forms and buttons change.
--
-- Mcp.Types has the data of the server and the record `Services`: its configuration and the code
-- that it calls, over a state of all that is outside, which is passed through every call.
-- Mcp.Scopes is `matchScope`. Mcp.Auth: `extractToken`, `resolveAuth`, `allowedOrigin` and the
-- caller that `StartStdioMode` chooses. Mcp.Tools: `listTools`, `findEndpoint`,
-- `toolDefinitionChanged`, `toolMeta`. Mcp.Admin: `handleAdminTool`. Mcp.Server: `handleRequest`,
-- `callTool`, `logAuditAsync`, `auditWorker`, over a record of what changes of an `MCPServer`.
-- Mcp.Transport: `ServeStreamable`, `ServeSSE`, `ServeMessages`, and Mcp.Stdio `StartStdioMode`; a
-- run is a list of requests, ends of streams and rounds of `auditWorker`. Their children hold the
-- proofs. Json has decoded JSON. Redaction (with Luhn for patterns.go), ToolIntegrity and Cache are
-- the packages of these names. Of pkg/gateway/client.go, Gateway has `doWithRetry`, Gateway.Egress
-- `validateEgress` and the dialer, Gateway.Render the templates, and Gateway.Call `ExecuteCall` and
-- `getSecret`, over a record of the caches and of everything outside. Storage is pkg/storage/db.go:
-- the rows of three tables and the caches, Storage.Tokens the client tokens, Storage.Runs sequences
-- of calls. Oauth is pkg/oauth, with Oauth.Claims for the claims and Oauth.Validation for
-- `fetchJWKS` and `ValidateToken`. Auth has the middlewares of pkg/auth/auth.go. Mcp.Samples and
-- the modules Tests have the theorems at concrete inputs.
--
-- Prelude holds the names that all modules share, tests on numbers and texts, and lemmas on lists;
-- Prelude.Results Go's pair of a value and an error.
--
-- The portal: Portal.Types has the JSON objects of the API, Portal.World what app.js reads and
-- writes: `STATE`, local storage, the hash, the elements of the page by id, and a log of the
-- requests sent, each with the token of the session at that time. An asynchronous function is a
-- value of Portal.Task: what it does up to its next `await`, how it goes on with the reply, and
-- which other function it calls without awaiting it. Portal.Page has the operations on the page
-- that all of app.js is written with; an element that is missing makes them throw, as `null` does.
--
-- Portal.Html: `escapeHtml`; Html.Rows the templates of rows and cards; Html.Badges `statusBadge`,
-- `renderTlsStatusBadge` and `renderMtlsStatusBadge`. Portal.Uri: `encodeURIComponent`.
-- Portal.Loaders: the functions `load...`, in Views (dashboard, connections, endpoints), Lists
-- (audit log, secrets, client tokens), Settings and Telemetry; Charts has the two drawings, Stats
-- and Conflicts hold the numbers shown and the audit of tool names. Portal.Router: `setupRouter`
-- and `handleRoute`. Portal.Session: `initAuth`, `bootstrapApp`, login, logout and SSO.
-- Portal.Forms: the forms and the deletions. Portal.Dialogs: the dialogs, the generator of tokens,
-- the schema buttons and the theme. Portal.Search: the search of the documentation. Portal.Loop:
-- the browser's event loop, with the wrapper of `window.fetch`; an event is an action of the user,
-- a reply to any request that waits, a change of the hash, the end of a timer or the reload of the
-- page.
--
-- Portal.Keeps is a logic of invariants for such tasks: a task keeps an invariant of the world if
-- each part between two replies does, whatever happened meanwhile; its children prove it of every
-- function for any invariant that the few primitive changes keep. Portal.Loop.Invariant carries
-- that to all runs. Portal.Samples and Portal.Tests have the theorems at concrete inputs.
--
-- Bounds: `decimal` has fuel for as many digits as the number's successor says, which no number
-- exceeds; `displayed`, the reading of markup by a browser, has fuel for the characters shown. All
-- other functions are structural.
--
-- Simplifications: a response's body is read together with the response; a body of another form
-- than the route's is a failed parse; the answer to a `confirm` dialog comes with the click;
-- numbers are exact where JavaScript uses floating point, and the counts and sums stay below 2^53 /
-- 100. A tool that is named like a key that every object of JavaScript inherits is counted as any
-- other tool. What the browser computes (`toLocaleString`, `URLSearchParams`, `innerText`, the
-- width of an element, and the divisions behind the geometry of the two charts) is a parameter, the
-- record `Browser`.
--
-- Of the server, handlers run one after another, as sequences of whole requests: no request is
-- split by another one. Parameters are the store, the vault, `ExecuteCall`, SHA-256, identifiers,
-- the clock, the decoders and encoders of JSON, the matches of regular expressions,
-- `strings.EqualFold`, `%q` and the OAuth validator. Texts are sequences of characters where Go has
-- bytes, and a count of matches or an audit duration has no upper limit; the number of attempts and
-- the backoff of a retry wrap around as an int64 does. Where `doWithRetry` gives neither a response
-- nor an error, `ExecuteCall` panics, which stands as an error. Requests are taken apart by the
-- net/http package: a handler sees the parts of a request that it reads, and writers can always
-- stream and responses can always be encoded.
--
-- In Storage a statement of SQL is what it does to the rows, constraints included, and any other
-- error of the database is an argument; each call is one step. In Gateway.Call and Oauth the
-- packages for HTTP, URLs, JSON and JWTs are parameters, and a loop over a Go map gets the order in
-- which it meets the keys. The server takes the store, `ExecuteCall` and `ValidateToken` as
-- parameters; Storage.Pins joins it to Storage, and Wiring puts it over Storage and Gateway.Call,
-- as main.go does where OAuth and the caches of the store are off.
--
-- Not modelled: the keepalive events of a stream; the audit table; the documents that pkg/oauth
-- publishes; the TLS configuration; the portal's API, the vault and the OpenAPI import, which are
-- for the most part calls of third-party code.
pub mod Prelude
pub mod Portal
pub mod Json
pub mod Redaction
pub mod ToolIntegrity
pub mod Cache
pub mod Auth
pub mod Gateway
pub mod Mcp
pub mod Oauth
pub mod Storage
pub mod Wiring
