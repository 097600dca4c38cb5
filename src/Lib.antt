-- ===== src/Lib.antt =====
-- fbpp is a C++ client library for Firebird. A program opens connections and transactions, prepares
-- statements with named parameters (`:name`, `@name`), takes prepared statements from a cache that
-- several threads share, and exchanges numbers, dates and BLOBs with the engine. The engine and its
-- client library are not part of the repository: what they answer is an argument of the model.
--
-- The parts, and the files that model them:
--   * Prelude: Boolean tests, lists, integers over the native numbers, bytes and <cctype>, decimal
--     digits, association lists with the order of insertion, and results that may be an exception.
--   * NamedParam (src/core/firebird/fb_named_param_parser.cpp): the scanner `parse`, one step for
--     each branch of the loop body. Segments describes SQL text without the scanner; Substitute,
--     Positions, Offsets and Stable are about the result; Positional is the conversion of JSON data
--     of include/fbpp/core/named_param_helper.hpp.
--   * StatementCache (src/core/firebird/fb_statement_cache.cpp): State has the data, Key the
--     normalised key, Prepare, Get and Maintain the operations, Run the calls that a program makes.
--     The public operations run under one mutex, so the calls of all threads are one sequence; `get`
--     tests for a disabled cache before it, so no thread may call `setEnabled` between.
--     The cache scans the SQL with NamedParam before it asks the engine. The other files have the
--     invariant and the proofs that every call keeps it.
--   * Transaction (src/core/firebird/fb_transaction.cpp): the four operations that end or keep a
--     transaction, destruction and moves. World has several objects that pass an interface on;
--     Transaction/Blob the segments that BLOBs are written and read in.
--   * Message (include/fbpp/core/message_metadata.hpp): the fields of a message. Wire is the bytes of
--     a buffer, Metadata (src/core/firebird/fb_message_metadata.cpp) the fields that the engine
--     describes and their lookup by name.
--   * Codec (include/fbpp/core/detail/sql_value_codec.hpp): values in the bytes of a message. Integer
--     and Text are the branches for the integral types and for std::string, Scientific is
--     `normalize_scientific`, Slots what a written field holds.
--   * Packing (include/fbpp/core/tuple_packer.hpp, include/fbpp/core/tuple_unpacker.hpp): the elements
--     of a tuple in a message, each with the codec.
--   * Statement (src/core/firebird/fb_statement.cpp): the owner of a statement interface. Params
--     (include/fbpp/core/statement.hpp, include/fbpp/core/transaction_templates.hpp) packs the
--     parameters of a call that comes through a transaction, Run has the calls of a program.
--   * ParamBinder (include/fbpp/core/param_binder.hpp): binding by name, with the codec, into the
--     message of a statement whose names NamedParam found.
--   * Schema: Analyzer (src/schema/query_analyzer.cpp) names the parameters and columns of a query,
--     TypeMapper (src/schema/type_mapper.cpp) gives them C++ types, Generator
--     (src/core/firebird/query_generator_service.cpp) prints the descriptor of the query.
--   * Connection (src/core/firebird/fb_connection.cpp): the attachment. It starts transactions and
--     prepares statements for the cache; Leaks follows both to their release, Ddl has `ExecuteDDL`,
--     which empties the cache, and Attachments what becomes of an attachment. Database attaches,
--     creates and drops, and tests (include/fbpp/core/status_utils.hpp) for a database that is missing.
--   * MessageBuilder (src/core/firebird/fb_message_builder.cpp): the fields of a message.
--   * Batch (src/core/firebird/fb_batch.cpp): execution with the tally of the engine's states.
--   * ResultSet (src/core/firebird/fb_result_set.cpp): the cursor with its end and its generation,
--     and the views of its rows (src/core/firebird/fb_row.cpp).
--   * Conversion (include/fbpp/core/detail/conversion_utils.hpp and the texts of
--     include/fbpp/core/detail/sql_value_codec.hpp): Decimals is scaled 64-bit integers in text, Iso
--     dates, times and zones.
--   * DateTime (include/fbpp/core/timestamp_utils.hpp and the dates of
--     include/fbpp/core/extended_types.hpp): Stamps is time points, in the ticks of the system clock of
--     libstdc++ or of Visual C++, Civil the calendar. A signed overflow is `none`.
--
-- Texts are lists of bytes, numbers of type size_t and the like are native numbers. Conversions between
-- widths, the fields of messages, the generation of cursors and the arithmetic on dates and ticks have
-- their bound or modulus; counters and sizes have none, nor has the time to live of the cache, which
-- overflows in the code from 153722868 minutes on. `unordered_map` is an association list; nothing
-- that is modelled depends on its order but the order of removal in `removeExpired`, which does not
-- change the result.
--
-- A message is a list of bytes, a pointer into it an offset. Integers lie in it as on the x86, the
-- lowest byte first and in two's complement. What the codec asks of the engine, the BLOBs of the
-- transaction and the bytes of floating-point numbers are the record `Outside`, an argument. A code
-- of an SQL type is the type and the lowest bit, by which the engine marks columns that may be NULL.
-- `10 ^ scale` has no bound in the model, where the code's overflows from 19 on; the theorems on
-- scaled columns ask for at most 18.
--
-- Fuel: `setMaxSize` loops at most once for each entry, and gets one round more than there are
-- entries; the decimal printer gets one round more than the number; `createBlob` one round for each
-- byte; `loadBlob` any positive number of rounds in the theorem about it.
--
-- Not modelled: input and output, tracing, the status vectors of exceptions, the hit rate (a
-- double), the codec's branches for floating-point numbers, bool, the extended types and the type
-- adapters, the packing of structs and JSON, which calls the codec for each field, schema inspection,
-- the includes and structs of the generated headers, the adapters, the cancelling of operations, the
-- failure of an allocation but in `Execute`, and the libraries under third_party.
pub mod Batch
pub mod Codec
pub mod Connection
pub mod Conversion
pub mod DateTime
pub mod Message
pub mod MessageBuilder
pub mod NamedParam
pub mod Packing
pub mod ParamBinder
pub mod Prelude
pub mod ResultSet
pub mod Schema
pub mod Statement
pub mod StatementCache
pub mod Transaction
