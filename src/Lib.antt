-- ===== src/Lib.antt =====
-- A verification of the core of the subscription server: from the lines of the sources to the
-- response that a client gets.
--
-- The parts and how they interact. A refresh (internal/pipeline/pipeline.go) fetches the sources,
-- keeps the last good lines of each (internal/fetch/source_cache.go), parses the lines into records
-- (internal/parse/parse.go), counts them by source (internal/pipeline/attribution.go), resolves the
-- hosts (internal/dns/dns.go), probes the records, feeds the probes to a health state machine and to
-- the country evidence of every route (internal/quality, internal/country), chooses routes for a
-- bandwidth probe, names the routes (internal/rename/rename.go) and publishes the entries. A request
-- (internal/subview/view.go) chooses among the published entries.
--
-- The files:
--   Base               texts (lists of code points), instants and durations, sorting, dictionaries,
--                      results; times are nanoseconds since Go's zero time, durations are integers,
--                      and `Sub` saturates as in Go
--   Quality            State: `Transition` of quality/state.go; Bandwidth: quality/bandwidth.go;
--                      Identity, Runtime: quality/runtime.go and metrics.go; Scoring: quality/scoring.go
--   Country            Codes, Evidence, Filter: country/country.go, and the tests for another probe of
--                      country/state.go
--   Enrichment         enrichment/cache.go
--   Services           servicecheck/cache.go
--   Checks             the probes of services: servicecheck/servicecheck.go (Core, Netflix, All),
--                      ai.go (Ai) and more.go (More)
--   IpIntel            ipintel/ipintel.go (Merge: `merge` and `MergeResult`; Lookup: the aggregator)
--                      and ipintel/cache.go (Cache)
--   Dnsbl, PortCheck   dnsbl/dnsbl.go, portcheck/portcheck.go
--   Config             config/config.go: Sources, Services, Checks and Probes are the parts of `Load`,
--                      in the order of the code, and Load puts them together
--   Dns                the cache of dns/dns.go and the loops of `ResolveHosts`
--   Fetch              Decode: fetch/fetch.go; Sources: fetch/source_cache.go
--   Parse              Lines: `ParseAllLines` of parse/parse.go; Query: `DedupKey`; Names:
--                      `ApplyNameFilter`; Record: parse/types.go; Params: the normalisation of the
--                      parameters; Schemes: the parsers of the five schemes, which Shares puts
--                      together
--   Format             Links, Vmess, Output: format/format.go
--   Rename             rename/rename.go
--   Pipeline           Attribution: pipeline/attribution.go; Probes: `updateRuntime` and its relatives
--                      of pipeline/pipeline.go; Cached, Publish: the published data of the same file;
--                      Fetching, Gateway: pipeline/fetch_fallback.go; Background: the choice of
--                      pipeline/enrichment.go and the rebuild from its caches
--   Subview            Request, Render: subview/view.go
--   Tests              concrete inputs
-- (All paths of the code are below internal/.)
--
-- Correspondence. A struct is a record, a constant of a string type a constructor of a data type,
-- with `unset` for its empty value; a nil pointer is `none`; a map is an association list; a mutable
-- object is state that is passed on, and a clone is a copy of a value. Time is an argument: a method
-- that asks for the time is its `At` variant at that time. Errors are values of `Result`. A panic
-- (division by zero, a negative bound of a slice) is `none`.
--
-- Bounds and fuel. Integers that the code keeps in `int` and that only count are natural numbers; the
-- counters of providers wrap at 64 bits. The digits of a number are computed with fuel 20, which is
-- enough since a 64-bit integer has at most 20 digits, and the loops that pad a text for base64 with
-- fuel 3, which is proved to be enough. No other definition has fuel: loops are recursion on the list
-- they run over.
--
-- Parameters. SHA-256, the reading of IP addresses and URLs, `net.SplitHostPort`, `strconv`, base64,
-- JSON, regular expressions, float64 (`Float`), the environment, the HTTP client, the resolver, the
-- dialer, the function that resolves a host, and the fetch through a gateway stand for code outside
-- the repository or for input and output. They are records of functions, named after the package
-- that they stand for, and nothing is assumed of them but in the theorem on Shadowsocks links, which
-- names its assumptions (`IsCodec`, `IsAddress`), and in that on base64 bodies. `Formatters` is the
-- interface to the formatters of internal/format; the function `NormalizeExtra` of internal/xhttp and
-- the links of a sing-box document are parameters too.
--
-- Not modelled: processes and files, the JSON and YAML formatters, the sing-box documents of sources,
-- the metrics, the HTTP answers of the providers of reputation data, and the order in which
-- goroutines run, but for the answers of `ResolveHosts` and of the providers, which come in any order.
pub mod Base
pub mod Checks
pub mod Config
pub mod Country
pub mod Dns
pub mod Dnsbl
pub mod Enrichment
pub mod Fetch
pub mod Format
pub mod IpIntel
pub mod Parse
pub mod Pipeline
pub mod PortCheck
pub mod Quality
pub mod Rename
pub mod Services
pub mod Subview
pub mod Tests
