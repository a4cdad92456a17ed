-- ===== src/SsTable/Footer/RoundTrip.antt =====
-- What the reader gets from the footer that the writer writes.
use lsm_tree_key_value_store.Prelude.{◌^◌, ◌<◌, ◌≡◌, refl, arith, length, drop}
use lsm_tree_key_value_store.Codec.{encode32, decode32, encode64, decode64}
use lsm_tree_key_value_store.Codec.RoundTrip.{
  decode32-encode32, decode64-encode64, decode64-encode64_self,
}
use lsm_tree_key_value_store.Status
use lsm_tree_key_value_store.SsTable.{footer_magic, footer_size}
use lsm_tree_key_value_store.SsTable.Footer.{Footer, serialize, deserialize}

-- The fields lie within the ranges of their C++ types.
pub record InRange (f : Footer) : Type 0 where
  pub data_offset_fits : f.data_offset < 2 ^ 64
  pub data_size_fits : f.data_size < 2 ^ 64
  pub index_offset_fits : f.index_offset < 2 ^ 64
  pub index_size_fits : f.index_size < 2 ^ 64
  pub bloom_offset_fits : f.bloom_offset < 2 ^ 64
  pub bloom_size_fits : f.bloom_size < 2 ^ 64
  pub record_count_fits : f.record_count < 2 ^ 32
  pub flags_fits : f.flags < 2 ^ 32

pub length-serialize : (f : Footer) → length (serialize f) ≡ footer_size
unfolding serialize encode64 encode32
length-serialize f = refl

-- The fields, at their places.
module _ (f : Footer) (h : InRange f) where
  decode64-data_offset : decode64 (serialize f) ≡ f.data_offset
  unfolding serialize
  decode64-data_offset = decode64-encode64 f.data_offset _ h.data_offset_fits

  decode64-data_size : decode64 (drop 8 (serialize f)) ≡ f.data_size
  unfolding serialize encode64 encode32
  decode64-data_size = decode64-encode64 f.data_size _ h.data_size_fits

  decode64-index_offset : decode64 (drop 16 (serialize f)) ≡ f.index_offset
  unfolding serialize encode64 encode32
  decode64-index_offset = decode64-encode64 f.index_offset _ h.index_offset_fits

  decode64-index_size : decode64 (drop 24 (serialize f)) ≡ f.index_size
  unfolding serialize encode64 encode32
  decode64-index_size = decode64-encode64 f.index_size _ h.index_size_fits

  decode64-bloom_offset : decode64 (drop 32 (serialize f)) ≡ f.bloom_offset
  unfolding serialize encode64 encode32
  decode64-bloom_offset = decode64-encode64 f.bloom_offset _ h.bloom_offset_fits

  decode64-bloom_size : decode64 (drop 40 (serialize f)) ≡ f.bloom_size
  unfolding serialize encode64 encode32
  decode64-bloom_size = decode64-encode64 f.bloom_size _ h.bloom_size_fits

  decode32-record_count : decode32 (drop 48 (serialize f)) ≡ f.record_count
  unfolding serialize encode64 encode32
  decode32-record_count = decode32-encode32 f.record_count _ h.record_count_fits

  decode32-flags : decode32 (drop 52 (serialize f)) ≡ f.flags
  unfolding serialize encode64 encode32
  decode32-flags = decode32-encode32 f.flags _ h.flags_fits

  decode64-magic : decode64 (drop 56 (serialize f)) ≡ footer_magic
  unfolding serialize encode64 encode32
  decode64-magic = decode64-encode64_self footer_magic (omega arith)

-- A footer is read as it was written, whatever stood in the variable before.
pub deserialize-serialize_footer :
    (f old : Footer) → InRange f → deserialize (serialize f) old ≡ (Status.ok, f)
unfolding deserialize
deserialize-serialize_footer f old h =
    rw
      (
        length-serialize f,
        decode64-magic f h,
        decode64-data_offset f h,
        decode64-data_size f h,
        decode64-index_offset f h,
        decode64-index_size f h,
        decode64-bloom_offset f h,
        decode64-bloom_size f h,
        decode32-record_count f h,
        decode32-flags f h,
      )
      refl
