-- ===== src/Frontend.antt =====
-- The web client's own code: frontend/src/utils and frontend/src/lib.
pub mod Csv
pub mod CsvLaws
pub mod Texts
pub mod Report
pub mod ReportLaws
pub mod Routes
pub mod RouteRoles
pub mod RoutesLaws
pub mod RouteLoops
pub mod Wizard
pub mod WizardPages
pub mod WizardLaws
pub mod Filters
pub mod FiltersLaws
mod FiltersTests
mod WizardTests
mod RoutesTests
mod Tests
