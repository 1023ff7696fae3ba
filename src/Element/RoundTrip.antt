-- ===== src/Element/RoundTrip.antt =====
-- What the classes of protocol/element3.py serialise, they parse.
pub mod Rows
pub mod Arrays
pub mod Columns
pub mod Texts
pub mod Dicts
pub mod Arguments
pub mod Server
pub mod Client
pub mod Every
