-- ===== src/Strings.antt =====
-- The parts of Python's `str` and `bytes` that the code uses, over lists of code points and of
-- bytes: `str(n)`, `sep.join`, `split`, `bytes.hex`, `bytes.fromhex`, `sorted`.
pub mod Decimal
pub mod Join
pub mod Split
pub mod Hex
pub mod Sort
pub mod Space
