-- ===== src/Client.antt =====
-- What the client keeps of the server's messages (client/src).
pub mod ChunkSync
pub mod Mirror
pub mod Exchange
pub mod Convergence
pub mod Prediction
pub mod Reconciled
pub mod Pending
mod Tests
mod PredictionTests
