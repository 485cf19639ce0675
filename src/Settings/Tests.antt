-- ===== src/Settings/Tests.antt =====
-- Inputs on which the theorems on the settings are used.
