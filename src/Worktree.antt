-- ===== src/Worktree.antt =====
-- Managed git worktrees, src/magsag/worktree.
pub mod Names
pub mod Porcelain
pub mod Resolve
pub mod World
pub mod Manager
pub mod Operations
pub mod Printed
pub mod Guards
pub mod Safe
