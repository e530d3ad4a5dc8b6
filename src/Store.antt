-- ===== src/Store.antt =====
-- The database as the services see it (packages/db/prisma/schema.prisma): the tables that the
-- modelled services read and write, with the columns that they use; the effects that leave the
-- system; and a service call as a function of the store that may throw.
pub mod Tables
pub mod Action
pub mod Rows
