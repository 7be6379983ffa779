-- ===== src/Lib.antt =====
-- Menagerie: a model of its core in antt.
--
-- The repository is a set of C++ libraries. Modelled are the parts below; a path is the repository's,
-- and a definition has the name of the function or type that it models unless its comment names it.
--
-- Http: component/http-albatross, the HTTP server's vocabulary and its routing layer.
--   UrlDecode   types/url_decode: `decode_into` is the loop that `url_decode` and `url_decode_arena`
--               share; a byte string is a list of numbers, an arena the number of bytes taken.
--   Method      types/enums: methods, versions, and their conversions to Beast's, whose verbs are a
--               parameter (`Verbs`).
--   Paths       routing/route_registry: segments, `join_path`, and the normalisation of paths at
--               registration and at lookup. The loop that strips trailing slashes runs on the length
--               of its input, which is enough, since each round takes a byte.
--   Routes      routing/route_registry: templates, `add_route`, `freeze`, `match_template` and
--               `find_route`. The hash table of exact routes is an association list, an exception a
--               `Result`, a handler any type.
--   Headers     types/headers: two backings; Beast's fields are a parameter (`BeastFields`), and
--               what Beast documents of them is the hypothesis `IsBeast`.
--   Responses   types/response, types/response_factory, types/errors.
--   Query       types/request_context: the query string and its parameters.
--   Dispatch    routing/router and path parameters: a handler's coroutine is run to its end, an
--               escaping exception is an `err`, and calls of hooks are events.
--   Controllers routing/controller, routing/group: middleware, and baking a controller's routes. A
--               route's bake gives no handler where `typed_self` throws.
-- Router::dispatch asks the registry for a route, whose lookup normalises the path and decodes the
-- captures, and turns what the registry refuses into a response of the factory.
--
-- Bowerbird: common/algorithms-bowerbird, the sliding window sorter. Parameters are `std::sort`,
-- with its documented behaviour on strict weak orders as the hypothesis `IsSort`, and whether the vector has room for a
-- merge in place. `Histories` has the sequences of calls. Sizes are unbounded numbers.
--
-- Starling: common/concurrency-starling, the sequencers of the disruptor. An atomic position is an
-- integer, an operation of a thread a step; a spin loop reads the successive positions of a list,
-- and gives nothing while it still spins. The machine arithmetic of the capacity limit and of the
-- slots' generations is written out.
-- Its resource pool: Pool has the slots, the registries, the idle bits and the waiters of pool/pool.hpp,
--   Operations each section under the mutex and each step outside it, and Threads the step relation of
--   the threads that use one pool: borrowers, reservations, maintenance, waiters and a shutdown. The
--   loop that serves waiters runs on their number, which is enough, since each round ends a wait.
--   While a parker raises the gate and scans the bits, the others take the steps that need no mutex.
--   In the other sections under the mutex, and between the unlocking and relocking within one, no
--   other thread moves, and what `recheck_closed` reclaims it quarantines in the same step.
--
-- Savanna: component/database-savanna, the query compiler and the error codes.
--   Expressions query/expressions: the nodes of a tree, as one type.
--   Visitor     query/compiler/query_visitor: the hooks of the SQL generator, as functions on its
--               state; Visitor/Nodes has the walk of a tree and query_compiler.hpp. The text is a list
--               of pieces, among them the calls of the dialect.
--   Dialect     providers/postgresql-elephant/dialect, and `constexpr_to_string` of
--               common/core-beaver, whose loop has fuel for the 20 digits of a `size_t`.
--   Errors      base/errors/db_error_codes.hpp; Errors/Sqlstates has the mapping of SQL states of
--               PostgreSQL, the chains of tests as lists of rules.
-- The compiler walks a tree and asks the dialect for each identifier, placeholder and literal.
--
-- Prelude has the shared names: native numbers and their tests, lists, byte strings, `Result`, and
-- signed integers.
--
-- Not modelled: sockets, TLS, the protocol drivers and the server's life cycle; request bodies;
-- the event count and the ring buffers; connections, transactions and exceptions of the database; the
-- logger, clock, locator, rendering and serialisation libraries; allocation and noexcept.
pub mod Prelude
pub mod Http
pub mod Bowerbird
pub mod Starling
pub mod Savanna
