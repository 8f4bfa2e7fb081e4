-- ===== src/Str/RoundTrip.antt =====
-- str/strnum.hpp: a number that is written and read back.
pub mod Digits
pub mod Prefix
pub mod Number
