-- ===== src/Lib.antt =====
-- The Nexus Engine, the intelligent demand router: which bidders are asked for a bid.
--
-- The program. A bid request is classified by src/idr/classifier/request_classifier.py: its
-- format, sizes, device, source and user. It carries consent signals, which
-- src/idr/privacy/consent_models.py parses (TCF by the decoder of the package iab-tcf, US Privacy,
-- GPP). The filter of src/idr/privacy/privacy_filter.py checks each bidder against them. The
-- scorer of src/idr/scorer/bidder_scorer.py scores each bidder by its past performance, which it
-- may ask the metrics store of src/idr/database/metrics_store.py for: that combines the counters
-- in Redis with the history in TimescaleDB. The partner selector of
-- src/idr/selector/partner_selector.py ranks the scored bidders, drops those that the filter
-- rejects, and selects in four steps: anchors, high scorers, categories, exploration slots. Its
-- configuration is resolved by src/idr/config/config_resolver.py from the levels ad unit, site,
-- publisher and global. The outcomes of the auction go to the event pipeline of
-- src/idr/database/event_pipeline.py, and publishers are known by the keys that the manager of
-- src/idr/auth/api_keys.py keeps in Redis. src/idr/bidders keeps the registry of custom bidders
-- there, the global ones and those of a publisher.
--
-- The files. The paths stand below src/idr/.
--   Common           library names passed on, tests, lists, `in` and dictionaries, texts and numbers in
--                    decimal
--   Privacy.Tcf      TCFConsent: `parse` with its loops over purposes and vendors (children Collect
--                    and Parse hold the proofs)
--   Privacy.UsPrivacy, Privacy.Gpp   USPrivacy and GPPConsent
--   Privacy.Signals  ConsentSignals: `from_openrtb` and what may be processed
--   Privacy.Bidders  BIDDER_PRIVACY_CONFIG, the table of known bidders
--   Privacy.Filter   PrivacyFilter: `filter_bidder`, `filter_bidders`, `get_privacy_summary`
--                    (children Permits, Batch, Summary, Regions)
--   Privacy.Jurisdiction   infer_privacy_jurisdiction
--   Scores, Request  models/bidder_score.py and models/classified_request.py
--   Classifier.Ortb  the keys of an OpenRTB request that the classifier reads
--   Classifier.Extract, Ids, Classify   classifier/request_classifier.py: RequestClassifier (children
--                    of Classifier: Laws, Domain, Consent)
--   Scorer.LookupKey   models/lookup_key.py
--   Scorer.Preferences, Metrics   the tables and the data that the scorer reads
--   Metrics.RealTime, MockRedis, Redis   database/redis_client.py: RealTimeMetrics, MockRedisClient and
--                    RedisMetricsClient (children of Redis: Reading, Percentile)
--   Metrics.Sampling  both clients on the same calls (children Moves, Global, Mock, Agreement)
--   Metrics.Timescale  database/timescale_client.py: BidderPerformance and MockTimescaleClient
--   Metrics.Snapshot, Combination, Store   database/metrics_store.py: BidderMetricsSnapshot,
--                    `_combine_metrics` and MetricsStore (children of Store: OneSource, Unusable)
--   Metrics.Clients  the store with the two mock clients
--   Scorer.Components, Score   scorer/bidder_scorer.py: BidderScorer (child of Scorer: Fallback)
--   Selector.Config  SelectorConfig, the reasons and SelectionResult
--   Selector.Steps   the four steps, on the list `selected` and the set `selected_codes`
--   Selector.Select  PartnerSelector: `select_partners` and its privacy step and modes
--   Selector.Adds, Growth, Explore, Normal   the relation of a selection to what the steps make of
--                    it, and that each step is in it
--   Selector.Partition, Safety, Bounds, Greedy, Diversity, Rank, Anchors   the properties
--   Events.Model, Keywords, Process   database/event_pipeline.py: events, calls by keywords, and the
--                    processing of an event and of a batch
--   Events.Pipeline  EventPipeline as a step relation (children of Events: Account, Queue, Untouched)
--   Events.Sync      SyncEventPipeline, submit_bid_response and submit_win (child Laws)
--   Keys.Hash        the commands of Redis on a hash, a parameter, and what is documented of them
--   Keys.Manager     auth/api_keys.py: APIKeyManager (children of Keys: Consistent, Manage, Lifecycle)
--   Resolver.Settings, Resolve   config/feature_config.py and config/config_resolver.py: the settings
--                    of a level, their merge and `to_resolved_config` (child of Resolver: Precedence)
--   Resolver.Resolved, Cache   the three `resolve_for_...` with their keys and resolution chains, the
--                    cache, and the operations that change configurations (children of Resolver:
--                    Coherent, Refinement)
--   Resolver.Store   config/config_store.py: ConfigStore in memory (children of Resolver:
--                    Prefixes, Saved)
--   Bidders.Code     bidders/models.py: the codes of bidders and of instances (children Normal,
--                    Instance)
--   Bidders.Model    bidders/models.py: BidderConfig and its parts
--   Bidders.Redis    the sets of Redis and HGETALL, parameters, with what is documented of them
--   Bidders.Storage, Publishers   bidders/storage.py: BidderStorage, the global bidders and those of a
--                    publisher (child of Bidders: Fresh)
--   Bidders.Url, Manager   bidders/manager.py: BidderManager (children of Bidders: Indexed, Registry,
--                    Active, Create)
--   Privacy.Tests, Selector.Tests, Events.Tests, Keys.Tests, Resolver.Tests, Bidders.Tests,
--   Classifier.Tests, Scorer.Tests, Metrics.Tests
--                    runs on small inputs, and the theorems at them
--
-- Conventions. A set is the list of its elements, a dictionary the list of its entries, and `none`
-- of an Option stands for None or for an exception, as the definition says. Floats are compared,
-- and the scorer and the metrics compute with them, by operations that are a parameter: one that
-- is not negative is its IEEE 754 bit pattern, read as a number, which has the same order.
-- `str.lower` is modelled on the ASCII letters. The detail texts of a filter result are data, one
-- constructor to a template. The counts of a configuration (`max_bidders` and the like) are taken
-- as not negative. The digits in the code of an instance are the decimal digits of Unicode 14; that
-- `int` refuses a text of more than 4300 digits is left out. A configuration has the sections `idr` and
-- `privacy`; its other sections are taken as there.
--
-- Parameters. The TCF decoder is a function from texts to what the code asks of the decoded
-- consent, each answer a value or an exception. `random.Random` is a function of its state; what
-- is assumed of `sample(population, k)` is that it takes k elements from distinct positions. The
-- hashes and sets of Redis are commands on a state, with what is documented of them as hypotheses,
-- and so are the commands that RedisMetricsClient sends. What `random.random()` and the clock give
-- it is data of each call. MD5 is a function on texts. An anchor provider is a function of the
-- publisher and the limit. The parser of user agents, a table of regular expressions, is a
-- function from texts. The performance data of the scorer are two interfaces, and its arithmetic
-- of floats a record of operations.
--
-- Threads. A step of the event pipeline is one access to what its threads share: a put, a get, a
-- change of the counters under the lock. The batch of each thread is a part of the state, and the
-- steps come in any order. To the pipeline the metrics store is an interface, a record of the two calls.
--
-- Loops are recursions on the list or on the rounds left. Fuel has only the printing of a number in
-- decimal, n + 1 for the number n, which is enough since each digit divides it by ten.
--
-- Not modelled: the clock, logging and the dictionaries made for it, HTTP handlers, connections,
-- and what is sent to the SQL databases, which is input and output (of the configuration store the
-- part in memory is modelled, of the metrics databases the mock of TimescaleDB); the patterns of
-- utils/user_agent.py; the transforms of requests and responses that a custom bidder can have,
-- which the registry only copies.
mod Common
pub mod Privacy
mod Scores
mod Request
pub mod Selector
pub mod Events
pub mod Keys
pub mod Resolver
pub mod Bidders
pub mod Classifier
pub mod Metrics
pub mod Scorer
