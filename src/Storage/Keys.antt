-- ===== src/Storage/Keys.antt =====
-- nimbis-storage/src: utils.rs, string/key.rs, MetaKey of string/meta.rs, hash/field_key.rs,
-- list/element_key.rs, set/member_key.rs, zset/member_key.rs and zset/score_key.rs.
pub mod Prefix
pub mod Order
pub mod Named
use nimbis.Prelude.{
  ℕ, ◌^◌, ◌%◌, Bytes, [], ◌∷◌, ◌++◌, length, take, drop, ltb, if◌then◌else◌, Result, ok, err,
  Option, none, some,
}
use nimbis.Resp.Types.{F64}
use nimbis.Storage.DataType.{DecoderError, invalid_length}
use nimbis.Storage.BigEndian.{be_bytes, get_be}
use nimbis.Storage.Score.{encode_score}

-- `put_u16(len as u16)`, `put_u32(len as u32)`: the casts drop the higher bits.
unfoldable pub put_u16_len : Bytes → Bytes
put_u16_len s = be_bytes 2 (length s % 2 ^ 16)

unfoldable pub put_u32_len : Bytes → Bytes
put_u32_len s = be_bytes 4 (length s % 2 ^ 32)

-- A `u16` in front, after the test that it is there, and as many bytes as it says.
unfoldable pub read_counted : Bytes → Option Bytes
read_counted s =
    if ltb (length s) 2
    then none
    else if ltb (length (drop 2 s)) (get_be 2 s)
    then none
    else some (take (get_be 2 s) (drop 2 s))

unfoldable pub user_key_prefix : Bytes → Bytes
user_key_prefix key = put_u16_len key ++ key

unfoldable pub zset_score_user_key_prefix : Bytes → Bytes
zset_score_user_key_prefix key = put_u16_len key ++ (key ++ b'S' ∷ [])

pub record StringKey : Type 0 where
  pub user_key : Bytes

unfoldable pub encode_string_key : StringKey → Bytes
encode_string_key k = put_u16_len k.user_key ++ k.user_key

abbrev or_invalid_length : Option Bytes → Result DecoderError StringKey
or_invalid_length none = err invalid_length
or_invalid_length (some k) = ok (record { user_key = k })

unfoldable pub decode_string_key : Bytes → Result DecoderError StringKey
unfolding read_counted
decode_string_key bytes = or_invalid_length (read_counted bytes)

pub record MetaKey : Type 0 where
  pub user_key : Bytes

unfoldable pub encode_meta_key : MetaKey → Bytes
encode_meta_key k = put_u16_len k.user_key ++ k.user_key

pub record HashFieldKey : Type 0 where
  pub user_key : Bytes
  pub field : Bytes

unfoldable pub encode_hash_field_key : HashFieldKey → Bytes
encode_hash_field_key k = put_u16_len k.user_key ++ (k.user_key ++ (put_u32_len k.field ++ k.field))

pub record ListElementKey : Type 0 where
  pub user_key : Bytes
  pub seq : ℕ

unfoldable pub encode_list_element_key : ListElementKey → Bytes
encode_list_element_key k = put_u16_len k.user_key ++ (k.user_key ++ be_bytes 8 k.seq)

pub record SetMemberKey : Type 0 where
  pub user_key : Bytes
  pub member : Bytes

unfoldable pub encode_set_member_key : SetMemberKey → Bytes
encode_set_member_key k =
    put_u16_len k.user_key ++ (k.user_key ++ (put_u32_len k.member ++ k.member))

pub record MemberKey : Type 0 where
  pub user_key : Bytes
  pub member : Bytes

unfoldable pub encode_member_key : MemberKey → Bytes
encode_member_key k =
    put_u16_len k.user_key ++ (k.user_key ++ (b'M' ∷ (put_u32_len k.member ++ k.member)))

pub record ScoreKey : Type 0 where
  pub user_key : Bytes
  pub score : F64
  pub member : Bytes

unfoldable pub encode_score_key : ScoreKey → Bytes
encode_score_key k =
    put_u16_len k.user_key
    ++ (k.user_key ++ (b'S' ∷ (be_bytes 8 (encode_score k.score) ++ k.member)))
