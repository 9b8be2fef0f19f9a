-- ===== src/K8sDynamic.antt =====
-- pkg/datagatherer/k8sdynamic: the gatherer of Kubernetes resources.
pub mod Values
pub mod NestedFields
pub mod JsonFields
pub mod FieldFilter
pub mod Resources
pub mod Redaction
pub mod ExpiringCache
pub mod Cache
pub mod Fetch
pub mod Validation
pub mod Setup
pub mod MemoryCache
pub mod Tests
pub mod SetupTests
