-- ===== src/Views.antt =====
-- ui/src/components and ui/src/pages: what each view decides, without its markup.
pub mod Rows
pub mod Form
pub mod Page
pub mod Options
pub mod SignIn
pub mod Settings
pub mod Token
pub mod Account
pub mod Menu
pub mod Boundary
