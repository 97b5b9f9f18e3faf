-- ===== src/Lib.antt =====
-- cachic is a caching proxy for game downloads on a local network. A request is matched to a service, keyed,
-- and served in slices of a fixed size from a store on disk; a slice that is missing is fetched from the
-- origin, once, whatever the number of clients that wait for it.
--
-- The files and the code that they model, under crates/cachic/src:
--   Common: what the parts share. Rust's `Result` and `?` (Results), machine words and their byte orders (Words),
--     the text operations of the standard library on UTF-8 bytes (Text), decimal numbers (Decimal), the
--     header map of the `http` crate (Headers).
--   Proxy/Range: proxy/range.rs. `parse_range`, `resolve`, `plan`, `slice_extent` and `payload_window` keep their
--     names. `plan`'s closure is `to_index`; the steps of `parse_range` are `parse_spec`, `parse_ends`, `number`.
--   Proxy/Limits: proxy/limits.rs. Each critical section of `try_acquire_for`, `acquire_global` and the drop of a
--     permit is a function on `ConnectionLimit`; Limits/Steps lets any number of threads run them in any order.
--   Sni/ClientHello: sni/clienthello.rs. `server_name` in the parts in which it descends: `record_fields`,
--     `client_hello`, `hello_fields`, `extensions_loop`, `host_in`, `names_loop`, `host_of`.
--   Proxy/Headers: proxy/headers.rs. The loop of `forwarded_request_headers` is `forward`, that of
--     `preserved_response_headers` is `preserve`; `CacheStatus` and `classify` stand in Orchestrator/Core.
--   Proxy/Server: `serve` of proxy/server.rs, with proxy/heartbeat.rs. Its early returns part it into `serve_method`,
--     `serve_host`, `serve_object` and `after_plan`; the head of a planned response is `planned_response`.
--   Services/Domains: services/domains.rs. `Pattern::parse` is `parse_pattern`, `DomainList::parse` is `parse`, its
--     loops are `parse_services`, `parse_files` and `parse_lines`.
--   Services/Matcher: services/matcher.rs. The loop of `service_for` over the parents of a host is `walk`.
--   Services/Key: services/key.rs, and `normalise_host` of services/matcher.rs. The loop of `percent_decode` is
--     `decode_from`, that of `normalise_path` is `resolve_segments`.
--   Config/Units: config/units.rs. `parse_with` is what `parse_size` and `parse_duration` do over their tables,
--     `format_with` the loop of `format_size`.
--   Store/Codec and Store/Slice: store/slice.rs, on byte lists in place of readers and writers; the counter of
--     checksum failures is left out.
--   Store/Index: store/index.rs: the encoding of `ObjectMeta`, and the operations of `ObjectIndex` in Index/Table.
--   Store/Space: the arithmetic of store/space.rs.
--   Orchestrator/Validators, Readahead and Filler: the files of these names in orchestrator/.
--   Orchestrator/Fill: `run_fill` and `payload_window` of orchestrator/mod.rs; Fill/Response adds the body stream
--     of proxy/server.rs, with the slices that a fill stored in place of the store.
--   Orchestrator/Core: the rest of orchestrator/mod.rs. The state of `Orchestrator` is `State`; Core/Operations has
--     `bump_generation`, `probe`, `metadata` (as `metadata_of`) and `plan`; Core/Slicing has the part of `slice` for
--     origins that serve ranges (`slice_ranged`, its closure `checked`, what follows the fetch `after_fetch`);
--     Core/Fills has `ensure_filled`, `slice` and `maybe_prefetch`. Core/Versions lets requests, slices, fills and
--     restarts follow each other in any order, as the relation `Steps`.
--   Upstream/Client: upstream/client.rs. `fetch_range` with its attempts (`attempts`) and what it does with a
--     response (`accept`), and `fetch_stream`. Upstream/Guard: upstream/guard.rs.
--   Store/Hybrid: the cache foyer, to which the methods of store/hybrid.rs pass on their calls.
--
-- How the parts interact: the range of a request is planned (Proxy/Range), the planned slices are awaited from
-- the fill (Orchestrator/Filler), which stores what it cuts from the origin's stream (Orchestrator/Fill), and the
-- response joins their windows (Fill/Response). The orchestrator (Orchestrator/Core) ties them: it probes the
-- origin (Upstream) for an entry of the index, plans with it, and moves on to a new generation of the object when
-- the origin's validators have changed. The store keeps each slice as a checked value (Store/Slice) under
-- an object id (Services/Key) and a generation, which the index advances (Store/Index).
--
-- Parameters: the hashes xxh3_64 and blake3, the database redb (the record `Redb`, with the laws of a map), the
-- cache foyer (the record `Foyer`: what is found was put there; it may forget), what reqwest answers to each
-- attempt and what the resolver says of a host, the text of an error that crossed foyer,
-- `HeaderValue::from_str`, the regular expressions (their `is_match`), the clock and the set of instants at which
-- a receiver looks.
--
-- Bounds: u32 and u64 are numbers, with their wrap-around, saturation or checks written out where the source
-- computes. Loops are structural on the bytes or chunks they consume, but for the loops of the ClientHello, which
-- take as many rounds as there are bytes (a round consumes at least three), and the inner loop of `run_fill`,
-- which takes as many as the buffer has bytes (a round consumes a slice, and slices are not empty).
--
-- The steps of Core/Versions run one after the other; the index, which redb makes durable, does not fail in them,
-- and no entry is removed from it.
--
-- Not modelled: sockets, HTTP and TLS transport, DNS, the file system, configuration files but for their units,
-- telemetry, the admin API, the refresh of the domain lists, and `handle` of proxy/server.rs (the access log and
-- the drain); crates/cachic/src/spike is a superseded copy of the same modules.
pub mod Common
pub mod Proxy
pub mod Store
pub mod Orchestrator
pub mod Sni
pub mod Services
pub mod Upstream
pub mod Config
