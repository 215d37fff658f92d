-- ===== src/Lib.antt =====
-- Verification library of the certificate authority server: what it promises about identities,
-- affiliations and the authority of a caller, proved of definitions that follow the Go code.
--
-- Paths are those of the repository. A handler gets a request context (lib/serverrequestcontext.go), which
-- reads the caller from the registry (lib/dbaccessor.go), checks what the caller may do, by its affiliation,
-- its type list and the control table of attributes (lib/attr/attribute.go), and changes the tables.
--
--   Prelude, Text, Result and Exec: names, lists, integers; Go's strings functions and the list helpers of
--   util/util.go; errors of lib/servererror.go as values; steps on a state that may fail.
--   Attr: lib/attr/attribute.go. Attr/Grants says what a registrar may give.
--   World: the tables and the fields of serverRequestContext. SQL statements are functions on the tables, and
--   a list of faults says which statements the driver fails, so a theorem for all worlds covers every
--   failure. World/Statements and World/ReadOnly have the laws of statements and transactions.
--   Registry: the users table and DBUser of lib/dbaccessor.go. Registry/Enrollments interleaves logins,
--   Registry/Removal deletes an identity, Registry/Inserted adds one and logs it in.
--   Affiliations: the affiliations table of lib/dbaccessor.go. Affiliations/Remove, Affiliations/Rename and
--   Affiliations/Lookup are its transactions; Affiliations/Removed and Affiliations/Failure say what they do.
--   What the database's LIKE matches is a parameter, with two laws.
--   AffiliationTree and AffiliationApi: lib/serveraffiliations.go, the tree and the endpoint.
--   AffiliationTree/Paths and AffiliationTree/Names compare the tree with a set of paths.
--   AffiliationApi/Handlers are the handlers, AffiliationApi/Deletion, AffiliationApi/Requests and
--   AffiliationApi/Sequences say what they do.
--   Context: the checks of lib/serverrequestcontext.go. Context/Authority and Context/Managing say what they
--   decide, Context/Caller and Context/Checks that they change no table.
--   Register: lib/serverregister.go and getMaxEnrollments of lib/util.go. Register/Filled, Register/Effect and
--   Register/Failure say what a registration does, Register/Limits what limits it grants.
--   Identities: lib/serveridentities.go. Identities/Merge is on getNewAttributes, Identities/Modified
--   on what a request makes of a row, Identities/Permission, Identities/Removal and Identities/Changes on the
--   handlers.
--   Revoke: lib/serverrevoke.go up to the CRL, and attributeIsTrue of lib/ca.go. The revocation of one row by
--   cfssl is a parameter.
--   TokenSignature: VerifyToken of util/util.go. TokenSignature/Signed says what an accepted token consists of.
--   Auth: BasicAuthentication and TokenAuthentication of lib/serverrequestcontext.go. Cryptography, the
--   verification of chains and cfssl's lookup of certificates are parameters.
--   Enroll: lib/serverenroll.go, with signCert of lib/gmca.go in Enroll/Signing. Enroll/Checked and
--   Enroll/Issued say what the checks establish and what certificate is issued,
--   Enroll/Enrolled is on the whole of an enrollment with a password.
--   KeyTree: lib/tcert/keytree.go. KeyTree/Cache compares the cached keys with their derivation.
--   Version: lib/metadata/version.go. Version/Order says what decides the comparison.
--   Migration: the migration of identities in lib/ca.go. Migration/Rows, Migration/Migrated and
--   Migration/Upgraded say what it makes of the tables, Migration/LevelChecks is on the check of their levels.
--   Endpoint: lib/serverendpoint.go, the answer to a request.
--   Housing: the operations on identities and on affiliations together.
--   Samples and the modules Tests: tables on which the theorems are applied.
--
-- No definition runs on fuel: every loop of the modelled code goes over a list. Texts of messages,
-- logs, the HTTP and JSON layers, cryptography and files are not modelled; bcrypt, certificates, random secrets and
-- cfssl's store of certificates are parameters. Integers that the code compares and counts are
-- unbounded here. A request runs alone, save in Registry/Enrollments, where logins and completions
-- interleave.
pub mod Prelude
pub mod Text
pub mod Result
pub mod Exec
pub mod Attr
pub mod World
pub mod Registry
pub mod Affiliations
pub mod AffiliationApi
pub mod AffiliationTree
pub mod Context
pub mod Samples
pub mod Register
pub mod Identities
pub mod Revoke
pub mod TokenSignature
pub mod Auth
pub mod Enroll
pub mod Endpoint
pub mod KeyTree
pub mod Version
pub mod Migration
pub mod Housing
