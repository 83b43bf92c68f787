-- ===== src/Storage/Meta/RoundTrip.antt =====
-- What the decoders of nimbis-storage/src/string/meta.rs make of encoded values.
use nimbis.Prelude.{
  ℕ, ◌+◌, ◌^◌, ◌<◌, ◌≡◌, refl, ◌∙◌, ap, Bytes, [], ◌++◌, append-nil, arith, length, length-append,
  ok,
}
use nimbis.Storage.DataType.{DataType, type_code, from_u8}
use nimbis.Storage.BigEndian.{be_bytes, get_be, get_be-be_bytes, drop-be_bytes, length-be_bytes}
use nimbis.Storage.Meta
use nimbis.Storage.Meta.{
  AnyValue, HashMetaValue, ListMetaValue, SetMetaValue, ZsetMetaValue, StringValue, decode_any,
  encode_any, decode_list_meta, encode_list_meta,
}

-- Every number fits `u64`.
abbrev pub AreU64 : AnyValue → Type 0
AreU64 (AnyValue.string v) = Unit
AreU64 (AnyValue.hash v) = (v.version < 2 ^ 64) × (v.len < 2 ^ 64) × (v.expire_time < 2 ^ 64)
AreU64 (AnyValue.list v) =
    (v.version < 2 ^ 64)
    × (v.len < 2 ^ 64)
    × (v.head < 2 ^ 64)
    × (v.tail < 2 ^ 64)
    × (v.expire_time < 2 ^ 64)
AreU64 (AnyValue.set v) = (v.version < 2 ^ 64) × (v.len < 2 ^ 64) × (v.expire_time < 2 ^ 64)
AreU64 (AnyValue.zset v) = (v.version < 2 ^ 64) × (v.len < 2 ^ 64) × (v.expire_time < 2 ^ 64)

length-put : (n : ℕ) (s : Bytes) → length (be_bytes 8 n ++ s) ≡ 8 + length s
length-put n s = omega (arith, length-append (be_bytes 8 n) s, length-be_bytes 8 n)

last-be_bytes : (n : ℕ) → n < 2 ^ 64 → get_be 8 (be_bytes 8 n) ≡ n
last-be_bytes n h = rw append-nil at (get_be-be_bytes 8 n [] h)

-- Of a time of expiry that does not fit, the lower bits are read back.
pub get_three-put_three_low :
    {A : Type 0} (t : DataType) (make : ℕ → ℕ → ℕ → A) (a b c : ℕ)
    → a < 2 ^ 64
    → b < 2 ^ 64
    → Meta.get_three t make (Meta.put_three t a b c) ≡ ok (make a b (get_be 8 (be_bytes 8 c)))
get_three-put_three_low t make a b c h k =
    rw
      (
        get_be-be_bytes 8 a (be_bytes 8 b ++ be_bytes 8 c) h,
        drop-be_bytes 8 a (be_bytes 8 b ++ be_bytes 8 c),
        get_be-be_bytes 8 b (be_bytes 8 c) k,
        drop-be_bytes 8 b (be_bytes 8 c),
        length-put a (be_bytes 8 b ++ be_bytes 8 c),
        length-put b (be_bytes 8 c),
        length-be_bytes 8 c,
      )
      (ground arith)

get_three-put_three :
    {A : Type 0} (t : DataType) (make : ℕ → ℕ → ℕ → A) (a b c : ℕ)
    → a < 2 ^ 64
    → b < 2 ^ 64
    → c < 2 ^ 64
    → Meta.get_three t make (Meta.put_three t a b c) ≡ ok (make a b c)
get_three-put_three t make a b c h k l =
    get_three-put_three_low t make a b c h k ∙ ap (λ x. ok (make a b x)) (last-be_bytes c l)

pub decode_list_meta-encode_list_meta :
    (v : ListMetaValue) → AreU64 (AnyValue.list v) → decode_list_meta (encode_list_meta v) ≡ ok v
unfolding decode_list_meta encode_list_meta
decode_list_meta-encode_list_meta v (a, b, c, d, e) =
    let s4 = be_bytes 8 v.expire_time in
    let s3 = be_bytes 8 v.tail ++ s4 in
    let s2 = be_bytes 8 v.head ++ s3 in
    let s1 = be_bytes 8 v.len ++ s2 in
    rw
      (
        get_be-be_bytes 8 v.version s1 a,
        drop-be_bytes 8 v.version s1,
        get_be-be_bytes 8 v.len s2 b,
        drop-be_bytes 8 v.len s2,
        get_be-be_bytes 8 v.head s3 c,
        drop-be_bytes 8 v.head s3,
        get_be-be_bytes 8 v.tail s4 d,
        drop-be_bytes 8 v.tail s4,
        last-be_bytes v.expire_time e,
        length-put v.version s1,
        length-put v.len s2,
        length-put v.head s3,
        length-put v.tail s4,
        length-be_bytes 8 v.expire_time,
      )
      (ground arith)

-- A value of the string database, of any type, whose numbers fit `u64` is decoded from its encoding:
-- the type in the first byte selects its decoder, and every field comes back.
pub decode_any-encode_any : (v : AnyValue) → AreU64 v → decode_any (encode_any v) ≡ ok v
unfolding decode_any encode_any from_u8 type_code Meta.encode_string_value Meta.decode_string_value
    Meta.encode_hash_meta Meta.decode_hash_meta Meta.encode_set_meta Meta.decode_set_meta
    Meta.encode_zset_meta Meta.decode_zset_meta encode_list_meta
decode_any-encode_any (AnyValue.string v) h = refl
decode_any-encode_any (AnyValue.hash v) (a, b, c) =
    ap (Meta.map_ok AnyValue.hash) (
      get_three-put_three DataType.hash Meta.hash_meta_with_ttl v.version v.len v.expire_time a b c)
decode_any-encode_any (AnyValue.set v) (a, b, c) =
    ap (Meta.map_ok AnyValue.set)
      (get_three-put_three DataType.set Meta.set_meta_with_ttl v.version v.len v.expire_time a b c)
decode_any-encode_any (AnyValue.zset v) (a, b, c) =
    ap (Meta.map_ok AnyValue.zset) (
      get_three-put_three DataType.zset Meta.zset_meta_with_ttl v.version v.len v.expire_time a b c)
decode_any-encode_any (AnyValue.list v) h =
    ap (Meta.map_ok AnyValue.list) (decode_list_meta-encode_list_meta v h)
