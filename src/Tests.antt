-- ===== src/Tests.antt =====
-- Concrete instances of the parameters, and the theorems at concrete inputs.
mod Ecma
mod Probes
mod Methods
mod Parts
mod Runtime
mod Again
mod Stack
mod Whole
mod Services
