-- ===== src/Lib.antt =====
-- The backend of a private memory and chat application (app/, Python over PostgreSQL).
--
-- A user stores memories; each is a row of the table `memories` and a document at an external
-- service, Supermemory. The row is durable and the document follows it: a request that fails leaves
-- a mark in the row, and a later request retries it. A chat request records the message of the user
-- in a session, and either replays the reply that is stored for it or runs an agent: a loop over the
-- turns of a model, whose tool calls search and change the memories. The packets of the agent are
-- streamed to the client and folded into the timeline that is stored with the reply. Logins are
-- throttled per address.
--
-- Files:
--   Base, Text, Platform, Errors: lists, tests, Python's strings, third-party code, error values
--   Helpers: app/services/_memory_helpers.py, without its cursors
--   MemoryClient: app/services/memory_client.py, the protocol; Supermemory below it, the adapter
--   Memory: app/models/memory.py and app/services/memory.py. Table is the table under the SQL of the
--     service; Remote, Create, Update, Delete, Sync, Search and Listing are the operations; Valid,
--     Owner, History, Isolation, Retry, Local, Removal and Listing/Complete hold proofs
--   Paging: the keyset pages of app/services/memory.py and app/services/sessions.py
--   Cursor: the opaque cursors of app/services/_memory_helpers.py, and in Session those of
--     app/services/sessions.py; Client is a client that follows cursors
--   Auth: Throttle is app/services/auth_throttle.py, Security is app/core/security.py, and Login the
--     handlers of app/api/auth.py; Guesses and Separation hold proofs
--   Stream: app/agents/packets.py, the events of app/schemas/sessions.py, and
--     app/api/_chat_stream.py: Steps, State and Turn; Content, Outcome, Replay, Invariant, Fidelity,
--     Faithful, Replayable, Cached and Refused hold proofs
--   Agent: Turn (one turn of the model) and Loop (the tool calls and the loop) are
--     app/agents/runtime.py, Prompt is app/agents/instructions.py, Arguments and Tools are
--     app/agents/tools/; Timeline, Failure, Answers, Requests, Folding, Merged, Edits, Store and
--     Memories hold proofs
--   Sessions: app/models/session.py, app/models/message.py and app/services/sessions.py. Table is
--     the tables under the SQL of the service; Service and Pages are the operations, Routes is
--     app/api/sessions.py; Valid, Complete, Recent, Deletion, and below Routes Reading and Errors,
--     hold proofs
--   Chat: app/api/chat.py, app/schemas/chat.py, and the writes of app/api/_chat_stream.py; History is
--     the relation of the requests and of turns that overlap; Turns, Recorded, Retry, Owners,
--     Isolation and Framing hold proofs
--   Tests: the theorems at concrete inputs
--
-- How the model stands to the code. A function of the source has a definition of its name; a
-- leading underscore is left out. An operation of a service takes the committed state and returns
-- its result and the new state, which is the old one where the source raises. A keyword argument
-- `db` is the state, the clock of the server and of the database is one argument `now`, and the
-- ids that the database draws are arguments. UUIDs, dates and instants are natural numbers (an
-- instant counts microseconds), a float is a whole number of steps of 2 ^ -1074, and a text is
-- the list of its code points. Exceptions are values of `Error`, of `Reply` for the memory
-- client, and of `Outcome` for the SDK. SQL is the list of rows with the table's constraints,
-- `SELECT` with its filter, order and limit, and `INSERT … ON CONFLICT`. A generator is the list
-- of what it yields to a client that reads it to its end, with the state and the exception that
-- it ends with.
--
-- Parameters stand for third-party code: Unicode normalization, SHA-256, time zones and full
-- text search (`Platform`), JSON, base64 and ISO formats (`Codec`, with its documented behaviour
-- in `IsCodec`), argon2 and PyJWT (`Crypto`), the SDK of the backend (`Sdk`), pydantic
-- (`Pydantic`; for the replay of a stored turn, `ToolClass`), and the time zone of the prompt
-- (`localize`). Of `json.loads` the model has all three ends: a value, a `ValueError`, and a
-- `RecursionError`. The backend is any `MemoryClient`, and the model behind the agent is any
-- function from the messages it is sent to what it streams (`Runtime`).
--
-- Bounds. The loop of the agent has the bound of the source, `_MAX_TOOL_TURNS`, and its last case is
-- the error packet that the source yields after the loop. The only fuel is that of the client that
-- follows cursors, which is no code of the source: more requests than the table has rows are enough,
-- and the theorems say so.
--
-- Not modelled: logging, HTTP rendering, database sessions, transactions that overlap (a chat
-- turn is two transactions, and turns do overlap), a client that leaves a stream early, the
-- routes of memories, the ranges that request schemas check, the command line, the
-- migrations, and the mobile application.
pub mod Base
pub mod Text
pub mod Platform
pub mod Errors
pub mod Helpers
pub mod MemoryClient
pub mod Memory
pub mod Paging
pub mod Cursor
pub mod Auth
pub mod Stream
pub mod Agent
pub mod Sessions
pub mod Chat
pub mod Tests
