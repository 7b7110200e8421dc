-- ===== src/Node.antt =====
-- infra/node: the program of a node around the library of the consensus, hashicorp/raft, which is not
-- part of the repository.
pub mod Message
pub mod Fsm
pub mod Acks
pub mod Transport
pub mod State
pub mod Api
pub mod Hub
pub mod Start
