-- ===== src/Images.antt =====
-- src/pkg/images and src/pkg/protos/fileregistry.go: the registry of disk images and its client, the files on the
-- local file system and their metadata in a badger database.
pub mod Storage
pub mod Registry
pub mod Client
pub mod Handler
