-- ===== src/Lib.antt =====
-- Verification library of fabric-cop, the membership server: users register, enroll and have their
-- certificates revoked, and enrolled users get batches of transaction certificates.
--
-- The server's parts and their files. Paths are from the root of the repository.
--   cli/server/auth.go guards the endpoints (Auth). Behind it stand the handlers: register.go and
--   user.go (Register), revoke.go with errors.go (Revoke). They call the user registry through the
--   interface of cli/server/spi (Spi), which cli/server/dbaccessor.go implements on a database
--   (Accessor), and the store of certificate records, cli/server/certdbaccessor.go (Certs). Both
--   stand on the tables of cli/server/dbutil/dbutil.go (Db). lib/tcert issues transaction
--   certificates: keytree.go (KeyTree), tcert.go and api.go (TCert.Batch, TCert.Extensions), util.go
--   (TCert.Padding, TCert.Cbc, TCert.Numbers, and TCert.Loading for certificates and keys).
--   util/util.go is in Strings, in Util (RandomString, RemoveQuotes) and in Token (CreateToken,
--   VerifyToken). util/cryptoutil.go, jsonprocessor.go and certificate.go sign and verify messages in
--   JSON texts and read requests for certificates (Util.Signing, Util.Json, Util.CertSpec,
--   Util.Validity); the server does not call them yet. cli/server/bootstrap.go fills the registry
--   at the start (Bootstrap), to which cli/server/config.go, factory.go and the functions of dbutil.go
--   that open a database lead (Startup); the names in a data source are in Startup.Sources.
--   cli/server/ldap/client.go is the other registry (Ldap).
--   cli/server/tcert.go is the handler that brings token, registry, key tree and batch together
--   (TCertHandler), and enroll.go the one for enrolling (Enroll).
--   The client library lib/client.go, identity.go, signer.go and verifier.go is in Client: the URL and
--   the HTTP request (Url, Http), what an identity posts (Identity, Enrolling), and its files (Files).
--   Its TLS configuration, with lib/tls/tls.go, is in Client.Tls, and what it leaves out in
--   Client.Unsupported. The commands of cli/client are in Client.Commands, cli/cop.go in Cop.
--   Client.Sent, Client.Registering, Client.Reenrolling and Client.Revoking put client and server
--   together.
--   cli/server/server.go is in Server: its endpoints and how a request reaches them (Server,
--   Server.Routing), and the start (Server.Serving), which init.go prepares. net/http's ServeMux is
--   modelled as far as it chooses a handler. In these parts a call can also panic or end the process
--   by log.Fatal: its result is a Run.
--
-- Handlers take any UserRegistry, a record of actions on a state; Accessor.db_registry is the record
-- for the database, and Register.OnDb puts the two together. Functions keep their Go names, in small
-- letters: DBUser.Login is Accessor.login, GetBatch is TCert.Batch.get_batch. A method that changes
-- state and may fail is a Method: from a state to a result and the next state, also where it fails.
-- An error keeps its code, or which call made it, and not its message.
--
-- The database. A Db is the three tables with the engine's behaviour beside them: at which statement it
-- fails, the time it reads there, and whether RowsAffected leaves out rows that do not change. These
-- are fields, over which every theorem ranges. The statements are functions on the tables. A user that
-- GetUser returned works on the handle of the state it is used in. RowsAffected itself never fails, and
-- a DEFAULT or the width of a VARCHAR is not modelled.
--
-- Texts are lists of bytes; ToLower is that of ASCII. A Go int is ℤ without wrap-around, except where
-- GetBatch turns a uint into an int (TCert.Batch.rounds).
--
-- Parameters: encoding/json, Request.BasicAuth, PEM, X.509, base64, RSA, ECDSA, HMAC, AES in CBC mode,
-- random bytes, the order of iteration over a map, viper, CFSSL's accessor and its check of revoked
-- certificates, net/url, net, strconv.Atoi, the HTTP client (Client.Http.Network), the LDAP library with
-- the server behind it, whose answers may differ from call to call (Ldap.Directory), and the files that
-- cannot be written (Client.Files.Disk), CFSSL's constructors of handlers (Server.Setup) and its signer
-- (in Enroll a method on the registry's state, since it puts the certificate into the database),
-- the maps of stew and the conversions of a float64 (Util.Json.Objects, Util.CertSpec), path.Clean, and
-- what the file system and the engine answer
-- to the start (Startup.Engine, Startup.Configuring.System). What Go documents of them stands as
-- hypotheses: TCert.Cbc.CbcLaws, Token.Soundness.CryptoLaws, Startup.Paths.AbsLaw, Server.Routing.CleanLaw,
-- Util.Json.Laws.ObjectsLaws and Util.Signing.RoundTrip.TextLaws.
--
-- Loops are structural recursion. TCert.Decimal.itoa has fuel, one more than the number; each round
-- divides by ten, so it does not run out. RandomString takes the list of the numbers that it draws; one
-- draw with a letter in it for each byte is enough. GetKey recurses on its path, which stands reversed.
--
-- Not modelled: flags and the parsing of the command line (CFSSL's), the loop behind listening, the
-- printing of requests for the log, network I/O, files that only declare interfaces (api.go, api/api.go)
-- and vendored code.
pub mod Prelude
pub mod Errors
pub mod Strings
pub mod Cop
pub mod Server
pub mod Spi
pub mod Db
pub mod Accessor
pub mod Register
pub mod Auth
pub mod Certs
pub mod Revoke
pub mod KeyTree
pub mod TCert
pub mod Token
pub mod Util
pub mod Bootstrap
pub mod Ldap
pub mod TCertHandler
pub mod Client
pub mod Startup
pub mod Enroll
mod Tests
