-- ===== src/Integrations.antt =====
-- app/integrations/: the gateways that the deployed application builds, and the stubs for tests. The
-- classes of the deployed application send nothing yet: their answers are constants.
pub mod Http
pub mod Stub
