-- ===== src/SsTable.antt =====
-- include/lsm/sstable.h and src/sstable.cpp: the sorted table on disk.
pub mod Index
pub mod Footer
pub mod Writer
pub mod Reader
pub mod ReadAll
pub mod Layout
pub mod Sparse
pub mod Lookup
pub mod Termination
pub mod Order
pub mod Appending
pub mod Written
pub mod Loading
pub mod Limits
pub mod Reopen
pub mod ReadBack
use lsm_tree_key_value_store.Prelude.{ℕ}

abbrev pub header_magic : ℕ
header_magic = 0x4C534D5452454531

abbrev pub footer_magic : ℕ
footer_magic = 0x4C534D5353544654

abbrev pub table_version : ℕ
table_version = 1

abbrev pub header_size : ℕ
header_size = 16

abbrev pub footer_size : ℕ
footer_size = 64
