-- ===== src/SsTable/Footer.antt =====
-- `SSTableFooter`: the last 64 bytes of a table.
pub mod RoundTrip
use lsm_tree_key_value_store.Prelude.{ℕ, Bool, ◌++◌, Bytes, length, drop, ◌==◌, if◌then◌else◌}
use lsm_tree_key_value_store.Prelude.Strings.{text}
use lsm_tree_key_value_store.Codec.{encode32, decode32, encode64, decode64}
use lsm_tree_key_value_store.Status
use lsm_tree_key_value_store.Status.{Status}
use lsm_tree_key_value_store.SsTable.{footer_magic, footer_size}

pub record Footer : Type 0 where
  pub data_offset : ℕ
  pub data_size : ℕ
  pub index_offset : ℕ
  pub index_size : ℕ
  pub bloom_offset : ℕ
  pub bloom_size : ℕ
  pub record_count : ℕ
  pub flags : ℕ

-- The default member values.
abbrev pub blank : Footer
blank = record {
  data_offset = 0;
  data_size = 0;
  index_offset = 0;
  index_size = 0;
  bloom_offset = 0;
  bloom_size = 0;
  record_count = 0;
  flags = 0;
}

unfoldable pub serialize : Footer → Bytes
serialize f =
    encode64 f.data_offset
    ++ (encode64 f.data_size
        ++ (encode64 f.index_offset
            ++ (encode64 f.index_size
                ++ (encode64 f.bloom_offset
                    ++ (encode64 f.bloom_size
                        ++ (encode32 f.record_count
                            ++ (encode32 f.flags ++ encode64 footer_magic)))))))

-- The status, and what `out_footer` holds: `old` where nothing is written to it.
unfoldable pub deserialize : Bytes → Footer → Status × Footer
deserialize bs old =
    if length bs == footer_size
    then (if decode64 (drop 56 bs) == footer_magic
        then (
          Status.ok,
          record {
            data_offset = decode64 bs;
            data_size = decode64 (drop 8 bs);
            index_offset = decode64 (drop 16 bs);
            index_size = decode64 (drop 24 bs);
            bloom_offset = decode64 (drop 32 bs);
            bloom_size = decode64 (drop 40 bs);
            record_count = decode32 (drop 48 bs);
            flags = decode32 (drop 52 bs);
          },
        )
        else (Status.corruption (text "Invalid SSTable footer magic"), old))
    else (Status.corruption (text "Invalid footer size"), old)
