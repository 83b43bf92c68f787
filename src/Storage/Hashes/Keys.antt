-- ===== src/Storage/Hashes/Keys.antt =====
-- The keys and the metadata of hashes (nimbis-storage/src/hash/field_key.rs and string/meta.rs) as those
-- of a collection that counts its elements.
use nimbis.Prelude.{◌<◌, ◌^◌, ◌≡◌, refl, false, Bytes, length, ok}
use nimbis.Resp.Utils.{same_bytes}
use nimbis.Storage.BytesEq.{same_bytes_of_ne, ne_of_same_bytes}
use nimbis.Storage.BigEndian.{be_bytes, get_be}
use nimbis.Storage.DataType.{DataType}
use nimbis.Storage.Keys.{encode_hash_field_key}
use nimbis.Storage.Keys.Prefix.{counted_inj}
use nimbis.Storage.Keys.Named.{named_inj, same_user_key_inj}
use nimbis.Storage.Meta.{HashMetaValue, hash_meta_with_ttl, encode_hash_meta, decode_hash_meta}
use nimbis.Storage.Meta.RoundTrip.{get_three-put_three_low}
use nimbis.Storage.Elements.Counted.{Collection}
use nimbis.Storage.Engine.{hash_meta}
use nimbis.Storage.Hashes.{hash_key}
use nimbis.Storage.Compaction.{same_type}

pub hash_key_distinct :
    (key x y : Bytes)
    → same_bytes x y ≡ false
    → same_bytes (hash_key key x) (hash_key key y) ≡ false
unfolding encode_hash_field_key
hash_key_distinct key x y n =
    same_bytes_of_ne _ _ λ e. ne_of_same_bytes x y n (named_inj x y (same_user_key_inj key _ _ e))

pub hash_key_foreign :
    (key key' x y : Bytes)
    → length key < 2 ^ 16
    → length key' < 2 ^ 16
    → same_bytes key' key ≡ false
    → same_bytes (hash_key key' x) (hash_key key y) ≡ false
unfolding encode_hash_field_key
hash_key_foreign key key' x y h k n =
    same_bytes_of_ne _ _
      λ e. let (same, _) = counted_inj key' key _ _ k h e in ne_of_same_bytes key' key n same

pub decode_hash_meta_low :
    (m : HashMetaValue)
    → m.version < 2 ^ 64
    → m.len < 2 ^ 64
    → decode_hash_meta (encode_hash_meta m)
      ≡ ok (record m { expire_time = get_be 8 (be_bytes 8 m.expire_time) })
unfolding encode_hash_meta decode_hash_meta
decode_hash_meta_low m h k =
    get_three-put_three_low DataType.hash hash_meta_with_ttl m.version m.len m.expire_time h k

pub hash_apart : same_type DataType.hash DataType.string ≡ false
unfolding same_type
hash_apart = refl

abbrev pub hashes : Collection hash_meta
hashes = record {
  type = DataType.hash;
  apart = hash_apart;
  sub = hash_key;
  distinct = hash_key_distinct;
  foreign = hash_key_foreign;
  version_of = λ m. m.version;
  len_of = λ m. m.len;
  decode-encode = λ m h k. (_, decode_hash_meta_low m h k, refl, refl);
  version-expiry = λ m ts. refl;
  len-expiry = λ m ts. refl;
}
