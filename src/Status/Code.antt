-- ===== src/Status/Code.antt =====
-- include/lsm/status.h: `enum class StatusCode`.
pub data StatusCode : Type 0 where
  ok not_found io_error corruption invalid_argument : StatusCode
