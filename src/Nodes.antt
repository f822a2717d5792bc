-- ===== src/Nodes.antt =====
-- The nodes of the stacks (`node_t` and `mstack_node_t` of the stack structures under src), at
-- addresses: 0 is NULL. The key, which nothing reads, is left out.
pub mod Heap
pub mod Stacks
pub mod Threads
pub mod Size
