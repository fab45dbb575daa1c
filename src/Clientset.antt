-- ===== src/Clientset.antt =====
-- pkg/generated/clientset/versioned: the clientset and its typed client, and how they are made.
pub mod Rest
pub mod Typed
pub mod Versioned
pub mod Made
pub mod Fake
pub mod Scheme
pub mod Examples
