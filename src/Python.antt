-- ===== src/Python.antt =====
-- What the modules use of Python: values, dicts, and calls that may raise.
pub mod Dict
pub mod Value
pub mod Result
pub mod Exec
