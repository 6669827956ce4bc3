-- ===== src/Py.antt =====
-- The Python runtime that the tools stand on: JSON values, dictionaries, exceptions and
-- datetimes. It is the language and its standard library, and models no code of the repository.
pub mod Result
pub mod Value
pub mod Dict
pub mod Time
pub mod Text
pub mod Stdlib
pub mod Sample
