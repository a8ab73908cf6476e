-- ===== src/Lib.antt =====
-- YANuget: a NuGet server.
--
-- The pure core of the server and of the crate yanuget-pkg that it shares with the internalizer.
-- Prelude holds what the modules share: Boolean tests on native numbers, lists, Result, and the
-- laws that Ord asks of cmp (Prelude/Order). Text is Rust's str as a list of code points, with the
-- calls of the standard library that the sources make (trim, split, split_once, join,
-- parse::<u64>, decimal formatting, ASCII case), written out and with their laws in its children.
--
-- Version models crates/yanuget-pkg/src/version.rs: NuGetVersion is the struct, cmp is Ord::cmp,
-- hashed is what Hash::hash feeds the hasher, and Version/Parse has parse and parse_stored, split
-- into one definition for each step of the function. Components are natural numbers: parse bounds
-- them by i32::MAX and parse_stored by u64, and no arithmetic is done on them.
--
-- Range models crates/yanuget-pkg/src/range.rs over Version: is_empty, contains, best_match,
-- normalized and, in Range/Parse, parse with a constructor of Reason for each error message.
--
-- Models has the fields of Package (src/models.rs) and FeedVersion (src/database/mod.rs) that the
-- rest reads; an instant is a number, since only its order and a calendar's subtraction are used.
--
-- Retention models the decision of src/retention.rs, prune_plan, with the limits of a policy, the
-- id prefixes of src/config/feeds.rs, and Vec::sort_by as an insertion sort, which is stable too.
-- chrono is the parameter Calendar, of which nothing is assumed: a cutoff that it cannot represent is
-- none.
--
-- Store is what the deletions act on: the rows of the tables of src/database/sqlite/schema.rs and the
-- names of the bytes that src/storage/filesystem.rs stores, with, in Store/Calls, one definition for
-- each call by what its statements do. A version is its canonical id and its normalized version, as in
-- the tables. A call may fail before or after its effect, which a list of fates decides; Store/Triple
-- reasons about all of them. A deletion that the file system refuses is a fate of its own, since
-- delete_symbol does not report it. Purge models the removal of a version in src/retention.rs:
-- purge_locked, purge_planned and purge_global_data; Purge/Sweep has the two sweeps, and Purge/Prune
-- delete_planned and the loop over a plan, with what the signal to stop says before each version. The
-- locks of src/locks.rs make each one sequence for its version, so the model runs them one after the
-- other. The sort of purge_file_blobs is an insertion sort. The reading of a feed's versions and the
-- background loop are not modelled.
--
-- Address models crates/yanuget-pkg/src/address.rs: IpAddr, unmap and prefix_eq (src/proxy.rs has the
-- same prefix_eq), and in Address/Private the addresses that the mirror must not fetch from, with the
-- predicates of std::net that the source calls written out. is_private_host and the resolver are not
-- modelled. Proxy has the trust test of src/proxy.rs.
--
-- RateLimit models src/ratelimit.rs. The HashMap of a limiter is an association list that holds each
-- key once (RateLimit/Map), an instant is a number, and duration_since stops at 0. A count is at most
-- the limit, a u32, so it does not overflow. RateLimit/Client has client_ip over a parameter Wire, which stands
-- for the http crate's HeaderMap and for the standard library's parsers of addresses;
-- RateLimit/Guesses has the middleware enforce, one request after the other, with the status of the
-- handler as an input. Requests in flight at once, between the test of a failure budget and its
-- charge, are not modelled.
--
-- Validation models the ids of src/validation.rs and the names of attached files of
-- crates/yanuget-pkg/src/files.rs; the loop over an id reads code points, of which those above ASCII are
-- refused like the bytes that encode them. Validation/FileName/Devices lists the names of Windows
-- devices that the code tells by their letters.
--
-- License models src/policy.rs with LicensePolicyConfig of src/config/feeds.rs; License/Tables has its
-- two tables of SPDX ids, License/Words how a license is cut into tokens, and License/Case what does not
-- depend on the case of letters.
--
-- Mirror/Health models the status of src/mirror/health.rs, its two transitions and its snapshot; the counters are
-- u64 and wrap around. A history of requests is a list with the latest first. Mirror/Tracker has the
-- Backoff of src/mirror/tracker.rs in seconds, with its saturating u32 count. The rest of the
-- mirror, the indexing, the other calls of the database and the storage, the web handlers and the rest
-- of the internalizer are not modelled.
--
-- Pdb models src/pdb.rs. A file is the list of its bytes, and reading it is a list of chunks; a read that
-- fails is the caller's error and is left out. Offsets are 64 bits wide with checked_add. A hasher and
-- the test for UTF-8 are parameters.
--
-- Closure models crates/yanuget-internalize/src/closure.rs: Edge and the messages in Closure, the
-- backtracking search in Closure/Solver, solve and resolve in Closure/Resolve. The upstream is the
-- parameter Source, by what it answers; the maps of Known are functions. The search is on fuel, 500
-- calls deep at the start, since each call adds a package and none is added to 500. Besides that, only
-- decimal in Text is on fuel, with more of it than a number has digits.
pub mod Prelude
pub mod Text
pub mod Version
pub mod Range
pub mod Models
pub mod Address
pub mod Proxy
pub mod Retention
pub mod Store
pub mod Purge
pub mod RateLimit
pub mod Validation
pub mod License
pub mod Mirror
pub mod Closure
pub mod Pdb
