-- ===== src/Dcbo.antt =====
-- src/dcbo-ms/d-balanced-queue.c: `width` partial queues, of which an operation samples `d`. The
-- file stands in each dcbo-* and simple-dcbo-* folder, over another partial queue.
-- A call runs beside other threads. The `k`-th state of the partial queues in a history is the one
-- that the call meets at its `k`-th shared access; between two of these others enqueue and dequeue.
pub mod Partial
pub mod Collect
pub mod Loops
pub mod Linearizable
pub mod Progress
pub mod Choice
pub mod Best
pub mod Dequeue
mod Tests
