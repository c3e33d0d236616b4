-- ===== src/Tests.antt =====
-- The theorems on concrete inputs, and runs of the definitions.
mod SecureTests
mod LayoutTests
mod LangTests
mod MethodsTests
mod NameTests
mod OverloadTests
mod LifecycleTests
mod PathTests
mod DeclarationTests
mod ScopeTests
mod RouterTests
mod MountTests
mod SubscriptionTests
mod ObserverTests
mod ValuesTests
