-- ===== src/Persona.antt =====
-- The persona context (apps/aria/src/aria/contexts/persona): personas, who owns them, and the
-- profile by which the chat context lets them speak.
pub mod Model
pub mod Repository
pub mod Service
pub mod Profile
pub mod Owning
pub mod Reading
pub mod Values
pub mod Links
pub mod Linking
pub mod Listing
mod Tests
