-- ===== src/Schema.antt =====
-- The rows of prisma/schema.prisma that the services read and write. Timestamps are numbers of
-- milliseconds; `createdAt` and `updatedAt`, which the database fills in, are left out.
pub mod Collaboration
pub mod Agreements
pub mod Commerce
pub mod Money
pub mod Access
pub mod Identity
pub mod Launches
