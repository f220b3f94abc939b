-- ===== src/Archive/Errors.antt =====
-- packages/archive-format/src/entry-policy.ts: the codes of `ArchiveContainerError`.
pub data ArchiveContainerErrorCode : Type 0 where
  archive_aborted compressed_size_limit_exceeded : ArchiveContainerErrorCode
  compression_ratio_limit_exceeded duplicate_archive_path : ArchiveContainerErrorCode
  entry_count_limit_exceeded entry_not_consumed : ArchiveContainerErrorCode
  entry_size_limit_exceeded entry_size_mismatch : ArchiveContainerErrorCode
  expanded_size_limit_exceeded extra_archive_entry : ArchiveContainerErrorCode
  invalid_archive_container invalid_archive_limit : ArchiveContainerErrorCode
  invalid_archive_path no_progress_timeout : ArchiveContainerErrorCode
  total_entry_size_limit_exceeded trailing_archive_data : ArchiveContainerErrorCode
  truncated_archive unsupported_archive_entry_type : ArchiveContainerErrorCode
  unsupported_tar_extension zstd_runtime_unsupported : ArchiveContainerErrorCode
