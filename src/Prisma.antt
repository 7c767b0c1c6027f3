-- ===== src/Prisma.antt =====
-- The tables behind `PrismaService` (src/prisma), as far as the services use them: a table lists
-- its rows with their primary keys, the newest first. `Tables` has the operations of one table,
-- `Laws` what they do to look-ups, counts and sums, `Keys` what distinct keys give.
mod Tables
mod Laws
mod Keys
pub use Tables.*
pub use Laws.*
pub use Keys.*
