-- ===== src/Text.antt =====
-- What the program uses of the standard library's text: numbers, UTF-8, trimming and addresses.
-- No code of the repository is modelled here; the modules that model it compute with these.
pub mod Number
pub mod Utf8
pub mod Trim
pub mod Address
