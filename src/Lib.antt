-- ===== src/Lib.antt =====
-- The C++ SDK for Unleash: a client that keeps a snapshot of feature toggles, answers questions about
-- them, and reports how often they were asked.
--
-- The parts, and the files that model them (paths from the root of the repository):
--   Client     src/unleashClient.cpp, include/unleash/Client: `State` has the client's state and its
--              constructor, `start`, `stop` and `updateContext`; `Threads` the two loop threads;
--              `Evaluate` the questions `isEnabled`, `getVariant` and `impressionData`; `Lifecycle`
--              has sequences of all of these, also with the
--              dispatch thread's steps in between; `Overlap` the accesses of overlapping calls of `start`
--              and `stop`, one by one; `Waits` the timed wait of the polling thread; `Answers`
--              follows a response to the answers of this client and of the next one.
--   Events     src/eventHandler.cpp, include/unleash/EventHandler: the callbacks, the queue and the
--              emissions; `Loop` has the steps of the dispatch thread, `System` their interleaving
--              with the threads that emit, `Wakeups` the wait of the dispatch thread and its
--              notifications, `SelfStop` the end of the handler.
--   Fetcher    src/toggleFetcher.cpp, include/unleash/Fetcher: the request, the query of a context
--              (`Query`) and the result of every response.
--   Json       src/jsonCodec.cpp, src/internal/jsonCodec.hpp: `Decode` and `Encode`, over `Library`;
--              `RoundTrip` has the one after the other, `Encode` also what a reader finds, and `Schema`
--              the type of the documents that are read.
--   Metrics    src/metricToggle.cpp, src/metricList.cpp, src/metricStore.cpp, src/metricSender.cpp
--              and include/unleash/Metrics.
--   Store      src/flagStore.cpp, src/storageProvider.cpp, include/unleash/Store: the snapshot, and
--              the providers that keep a backup of it.
--   Domain     src/variant.cpp, src/toggle.cpp, src/toggleSet.cpp, src/context.cpp and
--              include/unleash/Domain.
--   Config     src/clientConfig.cpp, include/unleash/Configuration.
--   Transport  src/httpClient.cpp, include/unleash/Transport: `HttpClient` has what a request sets and
--              answers, `Handles` the calls of libcurl that begin, use and end its handles.
--   Examples   examples/live_example.cpp.
--   Utils      include/unleash/Utils/utils.hpp.
--   Base       src/internal/expected.hpp (`Expected`), and the lemmas on texts, lists, maps and numbers.
--   Tests      test data, and the theorems at concrete inputs.
--
-- The polling thread asks the fetcher, which sends its request by the HTTP client and decodes the
-- answer by the JSON codec; the client puts the toggles into the flag store, saves them by the storage
-- provider and emits events. An evaluation reads the snapshot and counts in the metrics store, which
-- the metrics thread sends and resets.
--
-- `Overlap` takes the event handler's own start and stop for one step each, and any number of callers.
-- `Waits` and `Wakeups` take a critical section of a caller for one step, which waits for the mutex, and
-- one life of the thread, from its creation to the end of its loop.
--
-- A text is the list of its bytes, and a map a list of pairs that look-ups read by key; the order of
-- its entries, which a hash table leaves open, is part of no statement; `Domain/Toggles/View` is the
-- quotient that forgets it. A counter of type `unsigned
-- int` wraps at 2^32. Times and intervals are integers without a bound.
--
-- The loops over maps, lists and texts are structural. Those of the two loop threads run over the list
-- of the ends of their waits, each with the answers that follow, and stop where it ends. The dispatch
-- thread moves by single steps. The decimal text of n has fuel n + 1, enough since each round divides
-- by ten.
--
-- Not under src/ and so arguments: libcurl (`Curl`, `Transfer`), nlohmann::json (`Library`, with the
-- behaviour that is relied on in `Laws`), the file system's answers (`Access`), the clocks, `put_time`,
-- the random generators, and the version that the build passes.
--
-- The library's `dump()` throws on a string that is not UTF-8 (`is_utf8`). For the body of a POST fetch
-- this is an outcome, which `fetch` and the polling thread pass on, and the end of the example. The body
-- of the metrics and the text of the backup file are those of strings that are UTF-8.
--
-- Not modelled: the exception of `dump()` for the metrics and the backup file, the memory orders of the
-- atomics, the tests and the build files.
pub mod Base
pub mod Domain
pub mod Store
pub mod Metrics
pub mod Events
pub mod Utils
pub mod Transport
pub mod Json
pub mod Config
pub mod Fetcher
pub mod Client
pub mod Examples
pub mod Tests
