-- ===== src/Lib.antt =====
-- The SSH access broker, modelled and verified.
--
-- The program stands between users and target hosts. A user connects to the broker's SSH front door and is
-- authenticated by a key or by a login in the browser; the user name tells the target, grants in the
-- database decide what is allowed, and the broker then connects to the target itself with a certificate
-- that it issues for this one session. A management API changes users, servers and grants, and an audit
-- log chains what happened.
--
-- The parts, the code that they model and how they interact:
--
--   Prelude        what the modules share: lists over native numbers, strings as Go's strings package
--                  handles them, sorting, integers, the lemmas on them
--   Ca.Issuer      internal/ca/issuer.go: Issue and NewIssuer; Ca.Serial is internal/ca/serial.go. The
--                  signing backend (internal/signer/signer.go) is the record Authority.
--   Proxy.Target   internal/proxy/authz.go: ParseTarget
--   Proxy.DbAuthz  internal/proxy/dbauthz.go: Authorize, over the interface AuthzBackend
--   Proxy.Authn    internal/proxy/dbauth.go and the public-key callback of internal/proxy/server.go, over
--                  the interface KeyLookup, which cmd/broker/main.go fills with Store.Keys
--   Proxy.MemAuth  internal/proxy/memauth.go: keys from a file
--   Proxy.MemAuthz internal/proxy/memauthz.go: grants from a file
--   Proxy.Connect  internal/proxy/dial.go: connectTarget, which calls Ca.Issuer
--   Proxy.Gate     internal/proxy/session.go: the gate on channel requests under a decision
--   Proxy.Registry internal/proxy/registry.go: the live sessions
--   Proxy.Server   internal/proxy/server.go: handleConn as the list of its effects on the world around it
--                  in order; Proxy.Effects has the effects and that world, with internal/proxy/audit.go
--   Proxy.BrowserLogin  internal/proxy/server.go: keyboardInteractive, over Store.SshLogin
--   Store.Audit    internal/store/audit.go: the hash-chained log
--   Store.SshLogin internal/store/ssh_login.go: logins in the browser
--   Store.Admins   internal/store/admins.go: break-glass admins and their sessions
--   Store.Sessions internal/store/sessions.go and sessions_terminate.go
--   Store.Grants   internal/store/repositories.go and updates.go, as far as they concern grants
--   Store.Users    internal/store/repositories.go: users and the user behind a subject; Store.Keys has their
--                  keys, service accounts and the account behind a key
--   Store.Profiles internal/store/updates.go: partial updates of users
--   Store.Servers  internal/store/repositories.go and updates.go: servers, groups and their members
--   Secrets        internal/secrets/filestore.go: secrets in encrypted files
--   Config         internal/config/config.go: Load; Config.Certificates has the issuer that cmd/broker/main.go
--                  makes of it
--   Auth.Rbac      internal/auth/rbac.go: permissions, roles, the mapping of groups
--   Auth.Password  internal/auth/password.go: argon2id hashes; Auth.Tokens is internal/auth/session.go
--   Api.Limiter    internal/api/auth_handlers.go: the limiter of logins
--   Api.Login      internal/api/auth_handlers.go and ssh_login_handlers.go: localLogin, sshLoginDecision
--   Api.Principal  internal/api/auth_middleware.go: who a caller is; Api.Routes is the table of routes in
--                  internal/api/server.go
--   Api.Db         internal/api/json.go, with the tables that the handlers change; Api.UserHandlers,
--                  Api.ServerHandlers and Api.GrantHandlers are the handlers of internal/api/handlers.go
--                  that change them
--   Api.Management a request through the middleware of internal/api/server.go and auth_middleware.go and
--                  the guard of its route to its handler
--   Broker         cmd/broker/main.go: the database as AuthzBackend (Broker.Authz) and as Auditor
--                  (Broker.Adapter), and the reaper of sessions (Broker.Reaper);
--                  cmd/broker/browserlogin.go: the users behind logins (Broker.BrowserLogin);
--                  cmd/broker/admin.go: the administrator's tool from parsed flags on (Broker.Admin)
--   Samples        runs on concrete inputs
--
-- How the code is translated. A function of the code is a function here; a method that changes state takes
-- the state and returns it. A SQL statement is one step on lists of rows, with the constraints of the
-- schema that it can break; what the database makes up (ids, its clock) is an argument. A Go map is a
-- list of pairs. An error is `none`, `false` or a constructor that names it. A mutex, an advisory lock
-- or a transaction makes an operation one step, and histories of such steps stand for interleavings.
-- Durations and points in time are whole numbers, of nanoseconds or of microseconds where the database
-- keeps them. Code points stand for bytes where the separators are ASCII.
--
-- What other software does is a parameter: signing, SHA-256, argon2, AES-GCM, JSON, the formats of times, durations
-- and authorized keys, splitting at a delimiter of any length, key generation and dialing. Loops are
-- recursions on the list that they run over; decimal numbers are printed with as much fuel as the
-- number itself, which has fewer digits, and the loop over a file of keys has more fuel than the file
-- has bytes, each of its rounds reading at least one.
--
-- Not modelled: the bytes that flow through a session and their recording, process start-up, the parsing
-- of the command line and what its commands print, the web console, the KMS and file signers, and the
-- parts of the API and of the queries that only list what is stored.
pub mod Prelude
pub mod Ca
pub mod Secrets
pub mod Proxy
pub mod Store
pub mod Auth
pub mod Config
pub mod Api
pub mod Broker
pub mod Samples
