-- ===== src/Prisma.antt =====
-- The interface of the database client (Client), the order of its answers (Sort), and a client
-- over lists at which the interface is instantiated (Memory).
pub mod Sort
pub mod Client
pub mod Memory
pub use Sort.{Order, asc, desc, earlier, Ordered}
pub use Client.{Prisma}
