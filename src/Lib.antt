-- ===== src/Lib.antt =====
-- NGFW policy: the signature compiler, its database and the crawler.
--
-- The repository crawls public sources and compiles signatures of applications into one binary
-- file, the .sigdb, that a C engine matches traffic with. The model is of the Python code.
--
-- Parts and files
-- Sigc: tools/sigc.py. `slug` is `_slug`; Builder.antt has the state and `app` of class `Builder`;
--   Rules.antt has `domain`, `cidr` and `payload`, which return their Boolean and the new state;
--   Load.antt and its children have the loaders as actions that may raise (`none`), and
--   Load/Compile.antt the loop of `main` over them. A loader calls `app` to resolve a name to an id,
--   then stores rules under the id; curation (aliases, drops) acts inside `app`.
-- Sigdb: Struct.antt is Python's `struct` for the formats of the file, Pool.antt the string pool,
--   Write.antt `Builder.serialize`, Read.antt the readers of tools/export_rules.py,
--   tools/dup_audit.py, tools/build_page.py and tools/corpus_pcap.py. Export.antt is `rows` of
--   tools/export_rules.py, Audit.antt the checks of tools/dup_audit.py and Page.antt the apps and
--   totals of tools/build_page.py, on the tables that the readers give. Inventory.antt is the
--   inventory of `main` of tools/sigc.py, on what the builder holds.
-- Crawler: Contract.antt is src/extractors/base.py; Pipeline.antt is `_process` of
--   src/core/pipeline.py as a state machine, whose jobs share the counters, the set of seen URLs and
--   the semaphore, and move in the order of a schedule; Config.antt is src/core/config.py,
--   Discovery.antt `discover` of src/sources/rss_source.py, and RateLimiter.antt
--   src/utils/rate_limiter.py, with clock readings as arguments.
--   HttpSource.antt is `fetch` of src/sources/http_source.py, Feeds.antt the rest of the RSS source,
--   which reads its feeds through that `fetch`, Browser.antt src/sources/browser_source.py and
--   src/sources/factory.py, and Robots.antt src/utils/robotstxt.py.
--   Url.antt is src/utils/url.py; Extractors has the files of src/extractors: JsonLd.antt,
--   Indicators.antt, and Pages.antt for the article and the selector extractor; Run.antt is `run`
--   of the pipeline with the rates that a source sets, Records.antt its `_build_record` and `_emit`, and Outputs.antt the sinks of
--   src/outputs. Pipeline/Progress.antt is about the end of a crawl.
-- Capture: tools/mkpcap.py and tools/mkproto_pcap.py. Checksum.antt is `ip_checksum`, Hello.antt
--   `client_hello` with a reader of TLS records in Hello/Parse.antt that is no part of the program,
--   Packet.antt `tcp_packet` and the loop that writes the file.
-- Measure: tools/measure_corpus.py. Normalize.antt is `normalize`, Sources.antt and Netify.antt the
--   extractors and the rule volume, Report.antt the numbers of `main`.
-- Prelude: tests on numbers, lists, dicts as association lists, text as a list of code points.
--
-- Numbers are natural numbers without bound, as Python's are; fields of the file have their width,
-- and a number that a field cannot hold is the error of `struct.pack`. Most loops run over lists.
-- Fuel is used by the folding of carries in a checksum, whose fuel is the sum itself, by the stack
-- loop of JSON-LD, whose fuel is the number of values of the payload, and by the printing of a
-- number, whose fuel is the number plus one: each bounds the number of rounds.
--
-- Arguments of the model: `is_fetchable` and `canonicalize`, which the pipeline takes as functions
-- of a URL, `ipaddress.ip_network` and `ip_address`, the decoder of C string literals
-- (`unicode_escape`), the UTF-8 decoder, `str.isdigit` and `int`, the parsers of robots.txt and of
-- the configuration, the clock, and what the loaders and the crawler are given: parsed URLs, the lines of a file, the
-- matches of a regular expression in their order, decoded JSON, parsed feeds, what HTML parsers
-- find in a page, the answers of HTTP clients and of Playwright. DuckDB is an interface with
-- the documented effect of an upsert, whose statement is modelled.
--
-- Not modelled: argument parsing, printing and the writing of JSON and HTML, the C engine, and the
-- parts of the crawler that do network, HTML or database work. Concurrent calls of one browser
-- source, which interleave as it starts its browser, are not modelled.
pub mod Capture
pub mod Crawler
pub mod Measure
pub mod Prelude
pub mod Sigc
pub mod Sigdb
