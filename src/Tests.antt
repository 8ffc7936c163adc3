-- ===== src/Tests.antt =====
-- Concrete allocators, services and data, and the theorems of the development applied to them.
mod Samples
mod Worlds
mod Memory
mod Headers
mod Properties
mod Caches
mod Detections
mod Ranking
mod Files
mod Providers
mod Clients
mod Wrappers
mod Again
mod Keys
mod Libc
mod Blocks
mod Program
