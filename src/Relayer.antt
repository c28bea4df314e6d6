-- ===== src/Relayer.antt =====
-- scripts/relayer: the services between the ledger of payments and the chain.
pub mod Monitor
pub mod Chain
pub mod Wire
pub mod Fdc
pub mod DaProof
pub mod Abi
pub mod Payment
pub mod EvmTx
pub mod Attest
pub mod Operator
pub mod TeeProxy
pub mod Pause
pub mod StatusServer
pub mod Market
pub mod Web2Json
pub mod Onboarding
mod Tests
