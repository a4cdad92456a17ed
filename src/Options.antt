-- ===== src/Options.antt =====
-- include/lsm/options.h
use lsm_tree_key_value_store.Prelude.{ℕ, ◌*◌, Bool, true}

pub record Options : Type 0 where
  pub memtable_size_threshold : ℕ
  pub sparse_index_interval : ℕ
  pub bloom_bits_per_key : ℕ
  pub bloom_num_hashes : ℕ
  pub compaction_threshold : ℕ
  pub enable_bloom_filter : Bool

-- `Options{}`
abbrev pub default_options : Options
default_options = record {
  memtable_size_threshold = 4 * 1024 * 1024;
  sparse_index_interval = 16;
  bloom_bits_per_key = 10;
  bloom_num_hashes = 7;
  compaction_threshold = 4;
  enable_bloom_filter = true;
}
