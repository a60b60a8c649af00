-- ===== src/Tests.antt =====
-- Runs of the definitions on small inputs, and each theorem at an input where its hypotheses hold.
pub mod Sets
mod QuoteTests
mod CodeTests
mod NameTests
mod GateTests
mod ConfigTests
mod FanoutTests
mod NamingTests
mod SlurmTests
mod HostkeyTests
mod HostTests
mod BatchTests
mod GroupTests
mod PlanTests
mod DhcpTests
