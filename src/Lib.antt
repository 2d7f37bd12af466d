-- ===== src/Lib.antt =====
-- A model of portal-conductor, the service that manages CyVerse users across LDAP, the iRODS
-- datastore, Terrain, Mailman and the portal's PostgreSQL database, and of its deletion job.
--
-- The parts, by the file of the repository, and how they interact:
--
--   external/external.go        External, External/Effect: errors as values, and the calls that
--                               return them. A Go function over outside services is a function
--                               from the state of the world to a result and a new state, so what
--                               was done before an error stays done. TokenExpiry: Terrain/Token.
--   kinds/kinds.go              Kinds, Api/Requests: the structs of bodies and their decoding.
--   ldapclient/ldapclient.go    LdapClient/Connection, Users, Provision (CreateUserWithGroups),
--                               Attributes. LdapClient/Directory is the specification: who has an
--                               entry and who is in which group.
--   datastore/datastore.go      DataStore/Session, Users, Contents, Provision.
--   userdel/userdel.go          UserDel: FromDatastore and FromLDAP, over the two clients.
--   portaldb/portaldb.go,
--   portaldb/usercreation.go    PortalDb/Accounts (look-ups), Deletion (deleteSteps), Creation,
--                               Connection (Connect).
--                               PortalDb/Tables is the specification: tables of rows, transactions.
--   config/config.go            Config, Config/Env, Config/File, Config/Validation.
--   terrain/terrain.go          Terrain/Token (the token cache), Terrain/Calls; Http is net/http.
--   mailman/mailman.go          Mailman: AddMember, RemoveMember and the masking of the password;
--                               Mailman/Roster: MemberExists and ListMembers.
--   emailsvc/emailsvc.go        EmailService, EmailService/Message (buildMessage).
--                               EmailService/Delivery is the specification: the envelopes that a
--                               mail server has accepted, and the transaction under way.
--   cmd/delete-user/main.go     DeleteUser/Arguments, DeleteUser/Phases: the batch job, over userdel,
--                               Mailman and the portal database; DeleteUser/Run: initConnections
--                               and main, with its exit codes.
--   api/server.go               Api/Errors (handle), Api/Auth (protected), Api/Body (decodeBody);
--                               Api/Router: patterns as http.ServeMux reads them, and in
--                               Api/Router/Table the routes of Handler and HealthHandler;
--                               Api/Assembly: the struct API, and each handler over its clients.
--   api/users.go                Api/Users.
--   api/ldapmgmt.go             Api/Directory.
--   api/datastoremgmt.go        Api/Datastore.
--   api/portalmgmt.go           Api/Portal, Api/Portal/Creation: the registration of a user in all
--                               systems, and its compensation.
--   api/async.go                Api/Async: the deletion as a job of Terrain, with Async/Parameter
--                               (usernameParamID) and Async/AnalysisId (analysisIDParam).
--   api/terrainmgmt.go          Api/JobLimits.
--   api/mailinglists.go         Api/MailingLists, over Mailman.
--   api/emails.go               Api/Emails, over EmailService.
--   main.go                     Startup: buildAPI and serve, over every client, the router and the
--                               configuration.
--
-- A method of a client keeps its name in snake case and takes the client and an interface of the
-- library that it calls: `LdapClient.Server` for go-ldap, `DataStore.Server` for go-irodsclient,
-- `Database` for database/sql, `Http` for net/http, `EmailService.Server` for net/smtp and crypto/tls,
-- `Terrain.Memory` for the fields of the Terrain client, the clock and JWTs, and `AppMemory` for the
-- cached identifier of the app. The interfaces say what a call returns; what the proofs rely on is a
-- record of laws next to the specification. Examples holds services in memory that satisfy the laws.
--
-- Concurrency: the goroutines of `ListMembers` are a sequence of requests in any order, since each
-- adds to a set under a lock. The mutex of `resolveDeletionAppID` makes it one step.
--
-- Regular expressions are sequences of classes of characters with a number of repetitions, matched by
-- Base/Regexp from the left with the longest repetition first, as Go does.
--
-- Bounds: `deleteContents` recurses to a depth of `fuel` collections, a parameter of the model, and
-- ends with an error of its own where a tree is deeper; `itoa` gives one round of fuel to each unit of
-- its argument, which has fewer digits than that. User ids and the uidNumber offset are int64, and
-- their sum wraps around.
--
-- Not modelled: log lines, contexts and time-outs, and the texts of JSON (the model starts from the
-- JSON value). `strings.ToLower` and the word characters of regular expressions are those of ASCII,
-- and the first letter of an address is a character, not a byte; a percent escape of 80 or above is
-- read as one character. ServeMux's redirection of paths that are not clean comes before the model
-- of the router. The clock, random bytes, the boundary of a message, quoted-printable and float64
-- are parameters, and so is `slices.SortFunc`. The text of a decoding error leaves out the error
-- that it wraps, and that of an analysis which is no object the entry. In Mailman's `do`,
-- `NewRequest` and `ReadAll` do not fail; redirections are followed inside one call of
-- `http.Client.Do`. The text of a message is the one handed to net/smtp, before its translation of
-- dots and line ends, and names in LDAP are told apart exactly, where a server may ignore case.
-- docs/docs.go is generated.
pub mod Base
pub mod External
pub mod Kinds
pub mod LdapClient
pub mod DataStore
pub mod UserDel
pub mod Json
pub mod Http
pub mod Terrain
pub mod PortalDb
pub mod Config
pub mod Mailman
pub mod EmailService
pub mod DeleteUser
pub mod Api
pub mod Startup
pub mod Examples
