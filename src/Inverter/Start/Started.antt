-- ===== src/Inverter/Start/Started.antt =====
-- What is running after the start of the modules, and what is left of a start that failed.
