-- ===== src/Go.antt =====
-- What the sources use of Go's standard library: strings, strconv, net, encoding, path, math/rand.
pub mod Strings
pub mod Strconv
pub mod Net
pub mod Base64
pub mod Rand
pub mod Fmt
pub mod Time
