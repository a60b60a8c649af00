-- ===== src/Slurm.antt =====
-- internal/slurm/slurm.go: the Slurm clients that run on a login node, what they print and what is asked
-- of them.
pub mod Act
pub mod Output
pub mod State
pub mod Client
pub mod Nodes
pub mod Update
pub mod Queue
pub mod Accounts
pub mod Names
pub mod Users
pub mod Separating
pub mod Framing
pub mod Inverting
pub mod Checking
pub mod Counting
pub mod Adding
