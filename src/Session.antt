-- ===== src/Session.antt =====
-- Sessions: the tokens, the grants that hold them, and the tree of nodes that leads to the grants.
pub mod Token
pub mod Claims
pub mod Grant
pub mod Database
pub mod BranchId
pub mod Manager
