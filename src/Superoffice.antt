-- ===== src/Superoffice.antt =====
-- servers/superoffice: the parts that guard the extra tables of the CRM database.
pub mod Validator
