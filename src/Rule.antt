-- ===== src/Rule.antt =====
-- The rule net of rd-std/src/rule: matchers from the configuration, what is matched, and the
-- routing of a target to the first rule that matches it, with a cache.
pub mod MatchContext
pub mod Matcher
pub mod Meaning
pub mod Merge
pub mod Items
pub mod Net
pub mod Cache
pub mod Routing
pub mod Connect
pub mod Udp
mod Tests
