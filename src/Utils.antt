-- ===== src/Utils.antt =====
-- src/pkg/utils: the helpers of the other packages.
pub mod File
