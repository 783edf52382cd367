-- ===== src/Examples.antt =====
-- Concrete inputs: tables, tags, documents and a world, and what the theorems say of them.
mod Updates
mod Jobs
mod Tags
mod Stacks
mod Applying
mod Dispatching
mod Pooling
mod Recreating
mod Cycling
mod Locking
mod Detecting
mod Reconciling
