-- ===== src/Domain.antt =====
-- packages/domain: the records of the local database, their validation, and the two local state
-- machines. The sections of the source that read a value of unknown shape (`objectAt`,
-- `exactKeys`, `literalAt`, `enumAt`) hold of every value of a record or an enumeration here.
pub mod Model
pub mod Validation
pub mod StateTransitions
mod Tests
pub mod Json
pub mod Records
pub mod Parsers
pub mod Audit
