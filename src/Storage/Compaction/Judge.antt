-- ===== src/Storage/Compaction/Judge.antt =====
-- What the filter of nimbis-storage/src/compaction_filter.rs decides about the keys of collections.
use nimbis.Prelude.{
  ℕ, ◌^◌, ◌<◌, ◌≡◌, refl, arith, leb, Bool, true, false, Bytes, if◌then◌else◌, Result, ok, err,
  Option, none, some, length,
}
use nimbis.Storage.DataType.{DataType}
use nimbis.Storage.Keys.{user_key_prefix, encode_meta_key}
use nimbis.Storage.Keys.Prefix.{
  SubKey, encode_sub_key, user_key_of, encode_sub_key-user_key_prefix, read_counted-put_u16_len,
}
use nimbis.Storage.Meta.{AnyValue, encode_any, data_type, version_of}
use nimbis.Storage.Meta.RoundTrip.{AreU64, decode_any-encode_any}
use nimbis.Storage.Compaction.{
  Decision, keep, tombstone, filter, decode_sub_key, same_type, judge_any, judge_found,
}

-- The metadata of a user key, as the string database stores it.
abbrev pub stored : {E : Type 0} → Result E (Option AnyValue) → Result E (Option Bytes)
stored (ok (some v)) = ok (some (encode_any v))
stored (ok none) = ok none
stored (err e) = err e

abbrev pub IsStorable : {E : Type 0} → Result E (Option AnyValue) → Type 0
IsStorable (ok (some v)) = AreU64 v
IsStorable _ = Unit

-- An element is live if the metadata of its user key has the type of its collection, and no later
-- version than the element; a string has no version.
abbrev pub is_live : DataType → ℕ → AnyValue → Bool
is_live DataType.string seq (AnyValue.string v) = true
is_live DataType.hash seq (AnyValue.hash m) = leb m.version seq
is_live DataType.list seq (AnyValue.list m) = leb m.version seq
is_live DataType.set seq (AnyValue.set m) = leb m.version seq
is_live DataType.zset seq (AnyValue.zset m) = leb m.version seq
is_live _ _ _ = false

abbrev pub verdict : {E : Type 0} → DataType → ℕ → Result E (Option AnyValue) → Decision
verdict dt seq (err e) = keep
verdict dt seq (ok none) = tombstone
verdict dt seq (ok (some v)) = if is_live dt seq v then keep else tombstone

decode_sub_key-encode_sub_key :
    (k : SubKey)
    → length (user_key_of k) < 2 ^ 16
    → decode_sub_key (encode_sub_key k) ≡ some (user_key_of k)
unfolding decode_sub_key
decode_sub_key-encode_sub_key k h =
    let (s, e) = encode_sub_key-user_key_prefix k in
    rw e (read_counted-put_u16_len (user_key_of k) s h)

judge_any-is_live :
    (dt : DataType) (seq : ℕ) (v : AnyValue)
    → judge_any dt seq v ≡ (if is_live dt seq v then keep else tombstone)
unfolding same_type data_type version_of
judge_any-is_live DataType.string seq (AnyValue.string v) = refl
judge_any-is_live DataType.string seq (AnyValue.hash v) = refl
judge_any-is_live DataType.string seq (AnyValue.list v) = refl
judge_any-is_live DataType.string seq (AnyValue.set v) = refl
judge_any-is_live DataType.string seq (AnyValue.zset v) = refl
judge_any-is_live DataType.hash seq (AnyValue.string v) = refl
judge_any-is_live DataType.hash seq (AnyValue.hash v) = ground arith
judge_any-is_live DataType.hash seq (AnyValue.list v) = refl
judge_any-is_live DataType.hash seq (AnyValue.set v) = refl
judge_any-is_live DataType.hash seq (AnyValue.zset v) = refl
judge_any-is_live DataType.list seq (AnyValue.string v) = refl
judge_any-is_live DataType.list seq (AnyValue.hash v) = refl
judge_any-is_live DataType.list seq (AnyValue.list v) = ground arith
judge_any-is_live DataType.list seq (AnyValue.set v) = refl
judge_any-is_live DataType.list seq (AnyValue.zset v) = refl
judge_any-is_live DataType.set seq (AnyValue.string v) = refl
judge_any-is_live DataType.set seq (AnyValue.hash v) = refl
judge_any-is_live DataType.set seq (AnyValue.list v) = refl
judge_any-is_live DataType.set seq (AnyValue.set v) = ground arith
judge_any-is_live DataType.set seq (AnyValue.zset v) = refl
judge_any-is_live DataType.zset seq (AnyValue.string v) = refl
judge_any-is_live DataType.zset seq (AnyValue.hash v) = refl
judge_any-is_live DataType.zset seq (AnyValue.list v) = refl
judge_any-is_live DataType.zset seq (AnyValue.set v) = refl
judge_any-is_live DataType.zset seq (AnyValue.zset v) = ground arith

judge_stored :
    {E : Type 0} (dt : DataType) (seq : ℕ) (r : Result E (Option AnyValue))
    → IsStorable r
    → judge_found dt seq (stored r) ≡ verdict dt seq r
judge_stored dt seq (err e) w = refl
judge_stored dt seq (ok none) w = refl
judge_stored dt seq (ok (some v)) w = rw (decode_any-encode_any v w) (judge_any-is_live dt seq v)

-- The filter on an element that is no tombstone, with a user key of at most 65535 bytes: if the
-- metadata of the user key cannot be read, the element is kept; if there is none, the element is
-- removed; and if there is, the element is kept exactly if it is live, that is, if the metadata has the
-- type of the collection and no later version than the element.
pub filter-encode_sub_key :
    {E : Type 0} (get : Bytes → Result E (Option Bytes)) (dt : DataType) (k : SubKey) (v : Bytes)
    (seq : ℕ) (r : Result E (Option AnyValue))
    → length (user_key_of k) < 2 ^ 16
    → IsStorable r
    → get (user_key_prefix (user_key_of k)) ≡ stored r
    → filter get dt (record { key = encode_sub_key k; value = some v; seq = seq })
      ≡ verdict dt seq r
unfolding filter encode_meta_key user_key_prefix
filter-encode_sub_key get dt k v seq r h w g =
    rw (decode_sub_key-encode_sub_key k h, g) (judge_stored dt seq r w)
