-- ===== src/Career.antt =====
-- modules/career: the assistant for people who look for a job.
pub mod Alerts
