-- ===== src/Chain.antt =====
-- core/: the rules by which a block is accepted.
-- `Target` has the proof of work and the retarget, `Tree` the tree of blocks, `Block` the decoding
-- of a block, `Merkle` the root of its transactions, `BlockCheck` the checks of a block, and `Commit`
-- its transactions against the unspent outputs, with the reward.
pub mod Target
pub mod Tree
pub mod Block
pub mod Merkle
pub mod BlockCheck
pub mod Commit
