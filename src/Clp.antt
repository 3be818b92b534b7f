-- ===== src/Clp.antt =====
-- eta/core/src/eta/runtime/clp: the domains of the constraint store.
pub mod Words
pub mod BitSet
pub mod ZDomain
pub mod FdDomain
pub mod RDomain
pub mod Domain
mod Tests
