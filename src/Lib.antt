-- ===== src/Lib.antt =====
-- A verification library for OpenOdin, a decentralised graph of signed nodes.
--
-- The program keeps data as nodes. A node is a record of props, packed into a binary format
-- (src/datamodel/PackSchema.ts) that is hashed and signed. Every kind of node and certificate
-- derives from BaseModel (src/datamodel/BaseModel.ts). A node may be signed by another key than
-- its owner's, when certificates allow it: each certificate names the keys it empowers, bounds what
-- they may sign, and may itself be signed under another certificate. Storage keeps nodes and hands
-- them out up to a time that src/storage/TimeFreeze.ts gives; src/util/Lock.ts orders asynchronous
-- work.
--
-- Files and the code they model:
--   Prelude       shared types: native numbers and lists, integers, bytes (`Buffer`), the outcome of
--                 a validation (`Verdict`), a value or a thrown message (`Result`), dictionaries
--                 (`Dict`) and the order of bytes (`Compare`).
--   Model         src/datamodel/BaseModel.ts: bits of config numbers (IS_BIT_SET, SET_BIT), `validate`,
--                 and HashConstraints, with HashSpecificFields of PackSchema.ts, and HashList.
--   Cert          src/datamodel/level1/basecert/BaseCert.ts, level2/basesigncert/BaseSignCert.ts and
--                 level3/signcert/SignCert.ts: `validate` with the issuing certificates. A certificate
--                 stands with the list of those that issued it, its own `signCert` first.
--   Node          src/datamodel/level1/basenode/BaseNode.ts: flags, `validate` and `matchSignCert`.
--   Friend        src/datamodel/level2/basefriendcert/BaseFriendCert.ts and level3/friendcert/FriendCert.ts:
--                 `validate` and `hashFriendConstraints`.
--   License       src/datamodel/level2/baselicensenode/BaseLicenseNode.ts and
--                 level3/licensenode/LicenseNode.ts: flags, `validate`, `embed`, sending, and the
--                 hashes by which a license and its node are matched. A stack of licenses is the
--                 outermost with the list of those embedded in turn.
--   Data          src/datamodel/level2/basedatanode/BaseDataNode.ts and level3/datanode/DataNode.ts:
--                 flags, `validate` of copies and of embedding nodes, and a copy of a data node under
--                 another parent with the original that it gives back (Copy, GetCopiedNode). A node
--                 that embeds others stands with the list of those embedded in turn.
--   Schema        src/datamodel/PackSchema.ts: types, numbers, single fields (PackValue, UnpackValue),
--                 FieldIterator, and PackSchema with UnpackSchema on schemas of objects.
--   SchemaUtil    src/util/SchemaUtil.ts: ParseSchema, which parses JSON values by a schema, with
--                 DeepCopy of src/util/common.ts. A schema is a value as what it parses is. The
--                 parsers of an object's keys are taken from the schema by structural recursion
--                 and run in the order of the sorted keys.
--   TimeFreeze    src/storage/TimeFreeze.ts, with a step relation of a clock, which may be set to any
--                 time, and writers.
--   Lock          src/util/Lock.ts, with a step relation of its callers.
--   Crdt          src/storage/crdt/AlgoSorted.ts: the sorted model of nodes with its dictionary of
--                 indexes, its operations (add, delete, deletion tracking, get), the sequences of
--                 them (Reachable), and its view as a map from identities to nodes (View).
--                 SortedRefId: src/storage/crdt/AlgoSortedRefId.ts, the ordering of nodes by the nodes
--                 that they refer to. Its loop stands on fuel; n * (n + 1) ^ r rounds are enough for n
--                 nodes whose chains of references are at most r long.
--                 RefId: src/storage/crdt/AlgoRefId.ts, the levels of the tree of references, with
--                 indexNodes and reIndex. The walk to the root stands on fuel, which a bound of the
--                 ranks of the nodes is enough of.
-- Each has a module Tests with runs at concrete inputs.
--
-- How the code is rendered. A method that returns `[boolean, string]` gives a Verdict: `accepted`,
-- `refused` with the message, or `thrown` where an assertion fails. A function that throws gives a
-- Result. Guards stand in the order of the code. Names are the code's in snake case. BLAKE2b, the
-- encoding of texts, the hash of a node's own constraints, the clock, the conversions of JavaScript
-- and the functions in a schema are parameters. Objects have the properties that they list and inherit
-- none; messages of errors stand without the key that they are about.
--
-- Bounds and fuel. Numbers are native naturals and integers; the words of the binary format are
-- written out modulo powers of 256. Chains of certificates are finite lists, so validation is a
-- structural recursion. The digits of a number `n` are taken in `n` rounds, each of which halves it.
-- The loops over packed bytes have one round more than there are bytes; each round takes three.
--
-- Not modelled: signatures and their verification, proof of work, schemas of arrays, nested
-- unpacking, carrier nodes, ToJSONObject and the functions that schemas are built from, annotations and views of the CRDT algorithms,
-- databases, network messages and worker threads.
pub mod Prelude
pub mod TimeFreeze
pub mod Lock
pub mod Model
pub mod Cert
pub mod Schema
pub mod SchemaUtil
pub mod Node
pub mod Crdt
pub mod Data
pub mod Friend
pub mod License
