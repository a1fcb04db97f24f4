-- ===== src/Ioc.antt =====
-- framework/ioc/container.go: the container of beans. A bean, a reflect type and a database are told
-- apart by numbers; what reflect says of them is a parameter. One call of the container is one step:
-- its mutex and the sync.Once of each definition let nothing in between.
pub mod Defs
pub mod Resolve
pub mod Ending
pub mod Again
pub mod Steps
pub mod Preserved
mod Tests
