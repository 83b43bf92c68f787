-- ===== src/Storage/Sets/Keys.antt =====
-- The keys and the metadata of sets (nimbis-storage/src/set/member_key.rs and string/meta.rs) as those
-- of a collection that counts its elements.
use nimbis.Prelude.{◌<◌, ◌^◌, ◌≡◌, refl, false, Bytes, length, ok}
use nimbis.Resp.Utils.{same_bytes}
use nimbis.Storage.BytesEq.{same_bytes_of_ne, ne_of_same_bytes}
use nimbis.Storage.BigEndian.{be_bytes, get_be}
use nimbis.Storage.DataType.{DataType}
use nimbis.Storage.Keys.{encode_set_member_key}
use nimbis.Storage.Keys.Prefix.{counted_inj}
use nimbis.Storage.Keys.Named.{named_inj, same_user_key_inj}
use nimbis.Storage.Meta.{SetMetaValue, set_meta_with_ttl, encode_set_meta, decode_set_meta}
use nimbis.Storage.Meta.RoundTrip.{get_three-put_three_low}
use nimbis.Storage.Elements.Counted.{Collection}
use nimbis.Storage.Engine.{set_meta}
use nimbis.Storage.Sets.{member_key}
use nimbis.Storage.Compaction.{same_type}

pub member_key_distinct :
    (key x y : Bytes)
    → same_bytes x y ≡ false
    → same_bytes (member_key key x) (member_key key y) ≡ false
unfolding encode_set_member_key
member_key_distinct key x y n =
    same_bytes_of_ne _ _ λ e. ne_of_same_bytes x y n (named_inj x y (same_user_key_inj key _ _ e))

pub member_key_foreign :
    (key key' x y : Bytes)
    → length key < 2 ^ 16
    → length key' < 2 ^ 16
    → same_bytes key' key ≡ false
    → same_bytes (member_key key' x) (member_key key y) ≡ false
unfolding encode_set_member_key
member_key_foreign key key' x y h k n =
    same_bytes_of_ne _ _
      λ e. let (same, _) = counted_inj key' key _ _ k h e in ne_of_same_bytes key' key n same

pub decode_set_meta_low :
    (m : SetMetaValue)
    → m.version < 2 ^ 64
    → m.len < 2 ^ 64
    → decode_set_meta (encode_set_meta m)
      ≡ ok (record m { expire_time = get_be 8 (be_bytes 8 m.expire_time) })
unfolding encode_set_meta decode_set_meta
decode_set_meta_low m h k =
    get_three-put_three_low DataType.set set_meta_with_ttl m.version m.len m.expire_time h k

pub set_apart : same_type DataType.set DataType.string ≡ false
unfolding same_type
set_apart = refl

abbrev pub sets : Collection set_meta
sets = record {
  type = DataType.set;
  apart = set_apart;
  sub = member_key;
  distinct = member_key_distinct;
  foreign = member_key_foreign;
  version_of = λ m. m.version;
  len_of = λ m. m.len;
  decode-encode = λ m h k. (_, decode_set_meta_low m h k, refl, refl);
  version-expiry = λ m ts. refl;
  len-expiry = λ m ts. refl;
}
