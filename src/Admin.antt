-- ===== src/Admin.antt =====
-- app/admin/: the templates of interviews and who may change them.

mod Templates
mod Tenancy
mod Versions
mod Sequences
mod Tests
