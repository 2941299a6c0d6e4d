-- ===== src/Coder.antt =====
-- The arithmetic coder: arithmetic_coding.h, arithmetic_coding.cpp and coding.cpp under
-- project-spec/meta-user/recipes-apps/autostart/src.
pub mod Exec
pub mod Output
pub mod Counting
pub mod Input
pub mod Encoder
pub mod Coding
pub mod Message
pub mod RoundTrip
mod Tests
