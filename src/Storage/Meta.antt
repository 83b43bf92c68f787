-- ===== src/Storage/Meta.antt =====
-- nimbis-storage/src/string/meta.rs and string/value.rs: the values of the string database.
pub mod RoundTrip
use nimbis.Prelude.{
  ℕ, ◌+◌, ◌-◌, ◌*◌, ◌/◌, ◌^◌, Bytes, [], ◌∷◌, ◌++◌, length, drop, ltb, leb, ◌==◌, not,
  if◌then◌else◌, Result, ok, err, Option, none, some,
}
use nimbis.Storage.DataType.{
  DataType, DecoderError, empty, invalid_type, invalid_length, type_code, from_u8,
}
use nimbis.Storage.BigEndian.{be_bytes, get_be}

pub record StringValue : Type 0 where
  pub value : Bytes

pub record HashMetaValue : Type 0 where
  pub version : ℕ
  pub len : ℕ
  pub expire_time : ℕ

pub record ListMetaValue : Type 0 where
  pub version : ℕ
  pub len : ℕ
  pub head : ℕ
  pub tail : ℕ
  pub expire_time : ℕ

pub record SetMetaValue : Type 0 where
  pub version : ℕ
  pub len : ℕ
  pub expire_time : ℕ

pub record ZsetMetaValue : Type 0 where
  pub version : ℕ
  pub len : ℕ
  pub expire_time : ℕ

-- head and tail start in the middle of the range of `u64`.
unfoldable pub new_list_meta : ℕ → ListMetaValue
new_list_meta version = record {
  version = version;
  len = 0;
  head = (2 ^ 64 - 1) / 2;
  tail = (2 ^ 64 - 1) / 2;
  expire_time = 0;
}

unfoldable pub encode_string_value : StringValue → Bytes
encode_string_value v = type_code DataType.string ∷ v.value

unfoldable pub decode_string_value : Bytes → Result DecoderError StringValue
decode_string_value [] = err empty
decode_string_value (c ∷ s) =
    if c == type_code DataType.string then ok (record { value = s }) else err invalid_type

-- The type and three numbers: version, length, time of expiry.
abbrev pub put_three : DataType → ℕ → ℕ → ℕ → Bytes
put_three t a b c = type_code t ∷ (be_bytes 8 a ++ (be_bytes 8 b ++ be_bytes 8 c))

-- The test of the length and of the type, and the three numbers.
abbrev pub get_three {ℓ} : {A : Type ℓ} → DataType → (ℕ → ℕ → ℕ → A) → Bytes → Result DecoderError A
get_three t make [] = err invalid_length
get_three t make (c ∷ s) =
    if ltb (length (c ∷ s)) 25
    then err invalid_length
    else if c == type_code t
    then ok (make (get_be 8 s) (get_be 8 (drop 8 s)) (get_be 8 (drop 8 (drop 8 s))))
    else err invalid_type

-- `HashMetaValue::new_with_ttl`
abbrev pub hash_meta_with_ttl : ℕ → ℕ → ℕ → HashMetaValue
hash_meta_with_ttl version len expire_time = record {
  version = version;
  len = len;
  expire_time = expire_time;
}

unfoldable pub encode_hash_meta : HashMetaValue → Bytes
encode_hash_meta v = put_three DataType.hash v.version v.len v.expire_time

unfoldable pub decode_hash_meta : Bytes → Result DecoderError HashMetaValue
decode_hash_meta = get_three DataType.hash hash_meta_with_ttl

-- `SetMetaValue::new_with_ttl`
abbrev pub set_meta_with_ttl : ℕ → ℕ → ℕ → SetMetaValue
set_meta_with_ttl version len expire_time = record {
  version = version;
  len = len;
  expire_time = expire_time;
}

unfoldable pub encode_set_meta : SetMetaValue → Bytes
encode_set_meta v = put_three DataType.set v.version v.len v.expire_time

unfoldable pub decode_set_meta : Bytes → Result DecoderError SetMetaValue
decode_set_meta = get_three DataType.set set_meta_with_ttl

-- `ZSetMetaValue::new_with_ttl`
abbrev pub zset_meta_with_ttl : ℕ → ℕ → ℕ → ZsetMetaValue
zset_meta_with_ttl version len expire_time = record {
  version = version;
  len = len;
  expire_time = expire_time;
}

unfoldable pub encode_zset_meta : ZsetMetaValue → Bytes
encode_zset_meta v = put_three DataType.zset v.version v.len v.expire_time

unfoldable pub decode_zset_meta : Bytes → Result DecoderError ZsetMetaValue
decode_zset_meta = get_three DataType.zset zset_meta_with_ttl

unfoldable pub encode_list_meta : ListMetaValue → Bytes
encode_list_meta v =
    type_code DataType.list
    ∷ (be_bytes 8 v.version
        ++ (be_bytes 8 v.len
            ++ (be_bytes 8 v.head ++ (be_bytes 8 v.tail ++ be_bytes 8 v.expire_time))))

unfoldable pub decode_list_meta : Bytes → Result DecoderError ListMetaValue
decode_list_meta [] = err invalid_length
decode_list_meta (c ∷ s) =
    let s1 = drop 8 s in
    let s2 = drop 8 s1 in
    let s3 = drop 8 s2 in
    let s4 = drop 8 s3 in
    if ltb (length (c ∷ s)) 41
    then err invalid_length
    else if c == type_code DataType.list
    then ok (record {
      version = get_be 8 s;
      len = get_be 8 s1;
      head = get_be 8 s2;
      tail = get_be 8 s3;
      expire_time = get_be 8 s4;
    })
    else err invalid_type

pub data AnyValue : Type 0 where
  string : StringValue → AnyValue
  hash : HashMetaValue → AnyValue
  list : ListMetaValue → AnyValue
  set : SetMetaValue → AnyValue
  zset : ZsetMetaValue → AnyValue

abbrev pub map_ok {ℓ κ} :
    {A : Type ℓ} {B : Type κ} → (A → B) → Result DecoderError A → Result DecoderError B
map_ok f (ok a) = ok (f a)
map_ok f (err e) = err e

abbrev pub decode_as : Option DataType → Bytes → Result DecoderError AnyValue
decode_as none bytes = err invalid_type
decode_as (some DataType.string) bytes = map_ok AnyValue.string (decode_string_value bytes)
decode_as (some DataType.hash) bytes = map_ok AnyValue.hash (decode_hash_meta bytes)
decode_as (some DataType.list) bytes = map_ok AnyValue.list (decode_list_meta bytes)
decode_as (some DataType.set) bytes = map_ok AnyValue.set (decode_set_meta bytes)
decode_as (some DataType.zset) bytes = map_ok AnyValue.zset (decode_zset_meta bytes)

unfoldable pub decode_any : Bytes → Result DecoderError AnyValue
decode_any [] = err empty
decode_any (c ∷ s) = decode_as (from_u8 c) (c ∷ s)

unfoldable pub data_type : AnyValue → DataType
data_type (AnyValue.string v) = DataType.string
data_type (AnyValue.hash v) = DataType.hash
data_type (AnyValue.list v) = DataType.list
data_type (AnyValue.set v) = DataType.set
data_type (AnyValue.zset v) = DataType.zset

unfoldable pub encode_any : AnyValue → Bytes
encode_any (AnyValue.string v) = encode_string_value v
encode_any (AnyValue.hash v) = encode_hash_meta v
encode_any (AnyValue.list v) = encode_list_meta v
encode_any (AnyValue.set v) = encode_set_meta v
encode_any (AnyValue.zset v) = encode_zset_meta v

unfoldable pub version_of : AnyValue → Option ℕ
version_of (AnyValue.string v) = none
version_of (AnyValue.hash v) = some v.version
version_of (AnyValue.list v) = some v.version
version_of (AnyValue.set v) = some v.version
version_of (AnyValue.zset v) = some v.version

unfoldable pub expire_time_of : AnyValue → ℕ
expire_time_of (AnyValue.string v) = 0
expire_time_of (AnyValue.hash v) = v.expire_time
expire_time_of (AnyValue.list v) = v.expire_time
expire_time_of (AnyValue.set v) = v.expire_time
expire_time_of (AnyValue.zset v) = v.expire_time

unfoldable pub set_expire_time : AnyValue → ℕ → AnyValue
set_expire_time (AnyValue.string v) t = AnyValue.string v
set_expire_time (AnyValue.hash v) t =
    AnyValue.hash (record { version = v.version; len = v.len; expire_time = t })
set_expire_time (AnyValue.list v) t =
    AnyValue.list
      (record { version = v.version; len = v.len; head = v.head; tail = v.tail; expire_time = t })
set_expire_time (AnyValue.set v) t =
    AnyValue.set (record { version = v.version; len = v.len; expire_time = t })
set_expire_time (AnyValue.zset v) t =
    AnyValue.zset (record { version = v.version; len = v.len; expire_time = t })

-- The time that is left of a time of expiry, in milliseconds; `none` for a clock before 1970.
unfoldable pub remaining_ttl : ℕ → Option ℕ → Option ℕ
remaining_ttl expire_time clock = if expire_time == 0 then none else elim clock [
  | none ↦ some expire_time
  | some now ↦ if leb expire_time now then some 0 else some (expire_time - now)
]
