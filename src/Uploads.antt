-- ===== src/Uploads.antt =====
-- src/modules/uploads: texts as the service works on them, the names of folders and stored files, the
-- requests for files, and their composition with the controller.
pub mod Text
pub mod Keys
pub mod Files
pub mod Store
mod Tests
