-- ===== src/Lib.antt =====
-- etcd-studio: a web console for etcd clusters, in Go. This library models the parts of the program
-- that decide something, and proves what makes them correct.
--
-- The program: cmd/etcd-studio starts an HTTP server (internal/app) that logs users in (internal/auth),
-- keeps a registry of clusters and, beside etcd's own revisions, a history of values and an audit log
-- (internal/store). Configuration files are replaced by writing a temporary file and renaming it.
--
-- AtomicFile: the replacement of a file by `saveLocked` and `saveConfig` (internal/auth/manager.go,
--   internal/store/registry.go, internal/store/history_manager.go) as one function of the steps that
--   fail. A file is its content; directories and permissions are no state of the model.
-- Text, Base: packages strings, unicode, sort and encoding/base64 as far as the program uses them. The
--   tables of package unicode are the fields of `Unicode`, since they are data of Go's library.
-- Auth: `Manager` of internal/auth/manager.go and `normalizeLDAPSettings` of internal/auth/ldap.go.
--   A method is a function from the manager to a result and the manager afterwards; method names are
--   the Go names in snake case (`CreateUser` is `create_user`). A `Call` holds what a method reads from
--   outside: the clock, which steps of saving fail, and bcrypt's generator. A method that gives up its
--   lock between two parts takes what other calls do there as a function between managers. bcrypt's
--   comparison and SHA-256 are the fields of `Crypto`. Times are nanoseconds since Go's zero time.
--   Auth.Manager has the methods, Auth.Preserved the invariant, Auth.Access what logins, sessions and
--   changes of passwords grant.
-- Store.History: `FileHistory` of internal/store/history.go. A file is its complete lines and what stands
--   after the last newline; `published` is the file under the history's name, and the handle says
--   whether the open file is that one. Maps are association lists; `HistoryCall` and `LoadCall` say
--   what fails. The lines of JSON are the fields of `Json`, and the law that a record is read back from
--   its line is a hypothesis where it is needed. Texts are valid UTF-8.
--   Newest, Retention and Outcomes say what the calls return and leave, Indexed holds the invariant of
--   the two maps, Recovery and Durable what a restart finds.
-- Store.Registry: the registry of clusters of internal/store/registry.go as an association list of
--   clusters and the file; url.Parse is the field of `Urls`. `UpdateCluster` gives up its lock between
--   its two parts, so other calls may come there. Names holds the invariant, Changes its preservation,
--   Refused what an error leaves.
-- Store.Etcd: `Etcd` of internal/store/etcd.go. The client library is the field of `Client`; a call takes
--   the world of the clusters and ends in the world in which it was answered, so that other clients
--   may write in between. What the library documents is the hypothesis `IsClient` (reads, transactions,
--   revisions) or `IsRanged` (ranges of keys). Store.Kv has the interfaces that the handlers call,
--   with their laws `IsKv` and `IsStorage`; Meaning fills the first from the second hypothesis.
-- App: handlers of internal/app/server.go and internal/app/auth.go. A handler takes a request with its
--   decoded body and the state of the server, and returns an `Answer`, a result or a status with a
--   code, and the state afterwards; the clock of a request is a function of how often it was looked
--   at. App.Versions collects the versions of a key, App.Keys changes keys, App.Audit records events,
--   App.Access checks who asks, App.Inputs reads parameters. A long handler is split where a call
--   returns: `write_key` is the part of `handlePutKey` after its checks, `write_archived` the part after
--   the archiving.
-- Store.HistoryManager: `HistoryManager` of internal/store/history_manager.go. The backend that
--   openHistoryBackend opens, a file or a database, is the field of `Backend`, and what it promises the
--   hypothesis `IsBackend`; `ManagerCall` says what opening gives and which steps of saving fail. Input
--   is the check of a configuration, Normal what it lets through, Kept and Restart the invariant and the
--   restart, Storage the contract `IsStorage` of the handlers.
-- App.Studio joins the server with the manager and the registry. App.Users and App.Clusters are the
--   handlers on accounts, settings and clusters; App.Granted is the agreement of the two about grants,
--   App.Own what an administrator can do to himself, App.Access.Admitted who gets to a handler.
-- All recursion is structural; only the digits of a number take fuel, which is the number itself.
--
-- Not modelled: web pages (internal/app/web), reading of flags and environment variables, logging and
-- the bodies of HTTP requests and answers, connections to etcd, LDAP servers and SQL databases, and the
-- random generators, whose results are arguments, the audit log file
-- (internal/store/audit_file.go), the resolution of paths on disk, and the handlers of logins,
-- of the history storage and of pages of keys and events.
pub mod Base
pub mod Text
pub mod AtomicFile
pub mod Auth
pub mod Store
pub mod App
mod Tests
