-- ===== src/Element.antt =====
-- tools/pg_cluster_backend/psc/postgresql/protocol/element3.py: the messages of the version 3.0
-- protocol, what each class serialises to, and how each class parses a body.
pub mod Class
pub mod Message
pub mod Attributes
pub mod Fields
pub mod Backend
pub mod Frontend
pub mod Wire
pub mod RoundTrip
pub mod Framing
pub mod Typed
