-- ===== src/Storage/Compaction.antt =====
-- nimbis-storage/src/compaction_filter.rs: the filter of the databases of collections.
pub mod Judge
use nimbis.Prelude.{
  ℕ, Bool, true, false, not, Bytes, ltb, if◌then◌else◌, Result, ok, err, Option, none, some,
}
use nimbis.Storage.DataType.{DataType, DecoderError, type_code}
use nimbis.Storage.Keys.{read_counted, MetaKey, encode_meta_key}
use nimbis.Storage.Meta.{AnyValue, decode_any, data_type, version_of}

-- `value` is `none` for a tombstone.
pub record RowEntry : Type 0 where
  pub key : Bytes
  pub value : Option Bytes
  pub seq : ℕ

-- `tombstone` is `Modify(ValueDeletable::Tombstone)`.
pub data Decision : Type 0 where
  keep tombstone : Decision

unfoldable pub same_type : DataType → DataType → Bool
same_type DataType.string DataType.string = true
same_type DataType.hash DataType.hash = true
same_type DataType.set DataType.set = true
same_type DataType.list DataType.list = true
same_type DataType.zset DataType.zset = true
same_type _ _ = false

unfoldable pub decode_sub_key : Bytes → Option Bytes
decode_sub_key key = read_counted key

abbrev pub is_older : ℕ → Option ℕ → Bool
is_older seq none = false
is_older seq (some meta_version) = ltb seq meta_version

-- From the type test on.
abbrev pub judge_any : DataType → ℕ → AnyValue → Decision
judge_any dt seq any_val =
    if not (same_type (data_type any_val) dt)
    then tombstone
    else if is_older seq (version_of any_val)
    then tombstone
    else keep

abbrev pub judge_decoded : DataType → ℕ → Result DecoderError AnyValue → Decision
judge_decoded dt seq (ok any_val) = judge_any dt seq any_val
judge_decoded dt seq (err e) = keep

-- What the lookup in the string database returns.
abbrev pub judge_found : {E : Type 0} → DataType → ℕ → Result E (Option Bytes) → Decision
judge_found dt seq (ok (some meta_encoded)) = judge_decoded dt seq (decode_any meta_encoded)
judge_found dt seq (ok none) = tombstone
judge_found dt seq (err e) = keep

abbrev pub judge_sub_key :
    {E : Type 0} → (Bytes → Result E (Option Bytes)) → DataType → ℕ → Option Bytes → Decision
judge_sub_key get dt seq none = keep
judge_sub_key get dt seq (some user_key) =
    judge_found dt seq (get (encode_meta_key (record { user_key = user_key })))

-- `get` is `string_db.get_key_value`.
unfoldable pub filter :
    {E : Type 0} → (Bytes → Result E (Option Bytes)) → DataType → RowEntry → Decision
unfolding decode_sub_key
filter get dt entry = elim entry.value [
  | none ↦ keep
  | some v ↦ judge_sub_key get dt entry.seq (decode_sub_key entry.key)
]
