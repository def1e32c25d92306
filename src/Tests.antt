-- ===== src/Tests.antt =====
-- Runs of the model at concrete inputs, and each theorem that has hypotheses at one of them.
mod Codec
mod Pvm
mod Collections
mod Transition
mod Chain
mod History
mod Assurances
mod Blobs
mod Memory
mod Trie
mod Preimages
mod Disputes
mod Safrole
