-- ===== src/Dns.antt =====
-- controlled_dns.py and controlled_dns_transport.py: the resolver that the gateway trusts. Names are
-- code points, packets are bytes below 256. `Names` has the encoding of names and of queries,
-- `Message` the reading of responses, `Backend` the two queries of a resolution, `Resolver` the checks
-- on what a backend answers.
pub mod Names
pub mod Message
pub mod Backend
pub mod Resolver
pub use Names.*
