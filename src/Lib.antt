-- ===== src/Lib.antt =====
-- Tuskbase, the memory of a repository for coding agents: what it decides, stores and reports.
--
-- The program keeps decisions, conflicts between them, assessments and receipts in a store, finds
-- them by a search index, and serves them to agents. An agent attaches a repository, looks decisions
-- up, has a plan compared with them before it edits, and records what was decided. The service of
-- internal/app does this over the interfaces of internal/ports, which the store of
-- internal/adapters/sqlite fills; the servers and the command line around them are not modelled. The
-- modules are:
--
-- Common: texts, lists, results, and `Exec S A`, a call that changes a state `S` and may fail. What
-- a call changed before it failed stays changed.
-- Domain: internal/domain/types.go. Parse has the enumerations and their parsers, Types the
-- records, Validate the `Validate` methods.
-- Ports: internal/ports/ports.go, and the `Store` interface of internal/app/service.go, as records
-- of calls. `S` stands for all that lies behind them.
-- Search: internal/search/hybrid.go. Merge has `merge`, Hybrid the index itself.
-- Sqlite: internal/adapters/sqlite. Tables has the database, the tables of schema.sql, with the SQL
-- statements that the code uses on them, transactions among them; Workspaces, Decisions with
-- Children, Queries, Candidates, Documents, Conflicts, Index, Vectors and Tokens have the operations
-- of store.go, Adapter the interfaces that they fill, and Writes sequences of calls.
-- App.Auth: internal/app/auth.go.
-- App.Service, App.Completeness, App.Attach, App.Remember, App.Lookup, App.Preflight and
-- App.Briefing: internal/app/service.go. App.Briefing is `Context`; App.Remember.Draft is the part
-- of `Remember` that builds a decision. App.Service.Ledger states what the services rely on of the
-- conflicts in a store, and Sqlite.Adapter.Ledger shows it of the SQLite store.
-- App.Attach.Documents has the titles and the chunks of documents, from internal/app/service.go.
-- App.Import: internal/app/importer.go. Sentences and Extract find candidates in a text, Scan is
-- `ImportScan`, and Review has the other operations. The regular expressions are written out as
-- functions on texts; `Importing` has the paths, SHA-256 and the JSON texts.
-- App.Tokens and App.Relationship: internal/app/relationship.go.
-- App.Workflows: internal/app/workflows.go, a module for each operation.
-- Examples: a small store, and runs of the operations over it.
--
-- A function has the name of the Go function in small letters with underscores, and a method of
-- `Service` takes the service as its first argument. A `do` block follows the order of the calls
-- and of the early returns. A loop is a function by clauses on the list that it walks, with the
-- variables that it changes as an argument. One loop has fuel, that of `chunkText`: the length of the
-- text is enough, since each round makes it shorter.
--
-- What is simplified:
-- A limit is a number: the code treats a negative one as 0. A time is a number of ticks, and 0 the
-- zero time. The values of metadata are their JSON texts.
-- `float64` is a parameter `F` with the operations of `Float64`, without laws. A theorem about a
-- threshold says what the comparison answers.
-- A table is the list of its rows, and a statement a function on the database that may fail; it
-- fails where a key is taken or a reference has no row, and never by the disk or the driver. A JSON
-- column is the value that it encodes and a time column the time that it writes. The order of two
-- times as texts, FTS5 and the conversion of `float32` are parameters (`Engine`). In a sequence of
-- calls of the store the database has one time.
-- A cut of a text is at a number of bytes. Where it falls in the middle of a character, the code
-- keeps the bytes, which are no text: a model of a text leaves that character out, and the model of
-- `chunkText` ends there with a result of its own.
-- For the services the random identifiers, the clock, the store, the index, the validator, the
-- embeddings, and the repository on disk (`Repository`, with its hashes) are parameters.
-- Slices of an input are taken to be the caller's to give away, so that writes into their elements
-- are writes into the result. A `map` is a list of its keys, in an order that no result shows.
-- Texts are valid UTF-8. `to_lower` is exact for the texts that the program compares, which are
-- ASCII; %q takes characters beyond ASCII as printable.
-- Logging, the cancellation of a context, and the overflow of counts are left out.
--
-- Not modelled: the walk of a repository on disk (in internal/app/service.go), the opening and
-- migration of a SQLite file, the Postgres store, the HTTP and MCP servers, the embedding clients,
-- backups, the daemon and the command line. They are input and output around the service, or, like
-- the migration, still wait for a model.
pub mod Common
pub mod Domain
pub mod Ports
pub mod Search
pub mod Sqlite
pub mod App
pub mod Examples
