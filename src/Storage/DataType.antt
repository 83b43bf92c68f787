-- ===== src/Storage/DataType.antt =====
-- nimbis-storage/src/data_type.rs, and the decoder's errors in error.rs.
use nimbis.Prelude.{ℕ, Option, none, some, ◌==◌, if◌then◌else◌}

pub data DataType : Type 0 where
  string hash set list zset : DataType

pub data DecoderError : Type 0 where
  empty invalid_type invalid_length : DecoderError

-- `DataType as u8`
unfoldable pub type_code : DataType → ℕ
type_code DataType.string = b's'
type_code DataType.hash = b'h'
type_code DataType.set = b'S'
type_code DataType.list = b'l'
type_code DataType.zset = b'z'

unfoldable pub from_u8 : ℕ → Option DataType
from_u8 v =
    if v == b's'
    then some DataType.string
    else if v == b'h'
    then some DataType.hash
    else if v == b'S'
    then some DataType.set
    else if v == b'l'
    then some DataType.list
    else if v == b'z'
    then some DataType.zset
    else none
