-- ===== src/Lib.antt =====
-- A verification library for tit, a small Git forge in one Rust executable.
--
-- The program keeps its metadata in SQLite and its repositories on disk. The store
-- (src/store/mod.rs) is a set of operations, each one transaction; services, the SSH server and the
-- web pages call it. The policy (src/policy.rs) asks it who may do what with a repository, and the
-- Git transports frame their messages by packet lines (src/git/packetline.rs).
--
-- The files:
--   Prelude, Prelude/*      Boolean tests, lists, and tables: `find` is a SELECT of one row,
--                           `count_where` a SELECT count(*), `update_where` and `delete_where` an
--                           UPDATE and a DELETE, `next_rowid` the rowid of an INSERT.
--   Store/Error             StoreError, and a transaction's steps as results; a failed one leaves the
--                           database as it was, since the caller keeps the one that it had.
--   Store/Schema            The tables of src/store/migrations as a record of lists of rows.
--   Store/Common, Accounts, Keys, Login, Organizations, FeedTokens,
--   Repositories, Access, Issues, PushEvents, GitIntents, Merges, PullRequests, Settings
--                           The operations of src/store/mod.rs, one function for each, under the
--                           source's names.
--   Store/Events            src/store/event.rs, and the insertion of an event.
--   Identity/*              Theorems on accounts, invitations, keys, nonces, approvals and sessions;
--                           Reach has the history of calls that they range over.
--   Recovery                What a recovery of an account ends.
--   FeedTokens/*            Theorems on private feed tokens.
--   Issues/*                Theorems on issues.
--   Git/*                   Theorems on Git intents and pull requests; Calls has their calls, and
--                           IntentEffects and PullEffects what each does to the tables. Openings has
--                           the counters that number pull requests.
--   Settings/*              Theorems on the changes of repositories, laid out in the same way.
--   ReceivePack, ReceivePack/*
--                           src/git/receive_pack.rs as far as it recovers interrupted pushes and reads
--                           the commands of a push, and theorems on both.
--   Organizations/*         Theorems on owners and members of organizations.
--   Policy, Policy/*        src/policy.rs, and theorems on what it grants.
--   Names, Names/*          The tests of names in src/domain/repository.rs, src/auth.rs and
--                           src/git/transport.rs, and theorems on how they agree.
--   RateLimit, RateLimit/*  src/rate_limit.rs, and how much it holds.
--   Codec, Codec/*          src/codec.rs, and its round trip.
--   PacketLine, PacketLine/* src/git/packetline.rs, its round trip, the end of its loop, and the search
--                           for a flush packet.
--
-- How code becomes a definition: a transaction takes the database and returns the new one or an
-- error. A table is a list with the newest row first. `?` on a query is a step of the result type.
-- A UNIQUE constraint is tested where a statement can violate it. Times are natural numbers, since
-- the schema holds them at or above 0; hashes are numbers; what is drawn at random is an argument.
-- The loops over bytes have as fuel the length of the input, of which every turn takes at least four
-- bytes, or none where it returns.
--
-- An `unreachable!` that is reached is the error `panicked`. gix and the file system are parameters of
-- ReceivePack: what they answer about a repository, a ref name and an object id.
--
-- Not modelled: SQLite itself, files, sockets, cryptography and rendering, which the source leaves to
-- other libraries; and, so far, the pages that only read the store, the services around it, the SSH
-- server, and what of a push is a call of gix: the quarantine, the pack and the updates of refs.
pub mod Prelude
pub mod Store
pub mod Identity
pub mod Organizations
pub mod Recovery
pub mod Issues
pub mod Git
pub mod Names
pub mod FeedTokens
pub mod Codec
pub mod PacketLine
pub mod Policy
pub mod RateLimit
pub mod ReceivePack
pub mod Settings
