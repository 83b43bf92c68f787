-- ===== src/Tests/Storage.antt =====
-- Runs of nimbis-storage and instances of its theorems.
use nimbis.Prelude.{
  ℕ, ◌≡◌, ◌↔◌, refl, true, false, ◌||◌, ◌&&◌, not, Option, some, [], ◌∷◌, arith, Bytes, codes,
  length, ok, Result,
}
use nimbis.Resp.Types.{F64}
use nimbis.Storage.BigEndian.{bytes_less}
use nimbis.Storage.DataType.{DataType}
use nimbis.Storage.Score.{encode_score, decode_score, less_f64, decode_score-encode_score}
use nimbis.Storage.Keys.{
  user_key_prefix, zset_score_user_key_prefix, MemberKey, ScoreKey, encode_member_key,
  encode_score_key,
}
use nimbis.Storage.Keys.Prefix.{
  SubKey, encode_sub_key, starts_with, starts_with-user_key_prefix,
  starts_with-zset_score_user_key_prefix,
}
use nimbis.Storage.Keys.Order.{bytes_less-encode_score_key}
use nimbis.Storage.Meta.{AnyValue, decode_any, encode_any}
use nimbis.Storage.Meta.RoundTrip.{decode_any-encode_any}
use nimbis.Storage.Version.{run_turns, versions, Ascends, run_turns-Ascends}
use nimbis.Storage.Compaction.{filter}
use nimbis.Storage.Compaction.Judge.{verdict, stored, filter-encode_sub_key}
use nimbis.Storage.Lock.{StorageLock, keys, ordered_key_stripes}
use nimbis.Storage.Lock.Stripes.{
  Ascending, lookup, needed_mode, is_needed, ordered_key_stripes-Ascending,
  lookup-ordered_key_stripes,
}

abbrev user : Bytes
user = codes "user"

-- The bits of 1.5 and of -2.0.
abbrev one_and_a_half : F64
one_and_a_half = 0x3ff8_0000_0000_0000

abbrev minus_two : F64
minus_two = 0xc000_0000_0000_0000

abbrev hash_meta : AnyValue
hash_meta = AnyValue.hash (record { version = 10; len = 1; expire_time = 0 })

abbrev name_field : SubKey
name_field = SubKey.field (record { user_key = user; field = codes "name" })

decode_any-encode_any_example : decode_any (encode_any hash_meta) ≡ ok hash_meta
decode_any-encode_any_example =
    decode_any-encode_any hash_meta (omega arith, omega arith, omega arith)

starts_with-user_key_prefix_example :
    (starts_with (user_key_prefix (codes "use")) (encode_sub_key name_field) ≡ true)
    ↔ (codes "use" ≡ user)
starts_with-user_key_prefix_example =
    starts_with-user_key_prefix (codes "use") name_field (omega arith) (omega arith)

abbrev alice : MemberKey
alice = record { user_key = user; member = codes "alice" }

abbrev alice_score : ScoreKey
alice_score = record { user_key = user; score = minus_two; member = codes "alice" }

starts_with-zset_score_user_key_prefix_example :
    (starts_with (zset_score_user_key_prefix user) (encode_member_key alice) ≡ false)
    × ((starts_with (zset_score_user_key_prefix user) (encode_score_key alice_score) ≡ true)
        ↔ (user ≡ user))
starts_with-zset_score_user_key_prefix_example =
    starts_with-zset_score_user_key_prefix user alice alice_score (omega arith) (omega arith)
      (omega arith)

bytes_less-encode_score_key_example :
    bytes_less
      (encode_score_key (record { user_key = user; score = minus_two; member = codes "b" }))
      (encode_score_key (record { user_key = user; score = one_and_a_half; member = codes "a" }))
    ≡ (less_f64 minus_two one_and_a_half
        || not (less_f64 one_and_a_half minus_two) && bytes_less (codes "b") (codes "a"))
bytes_less-encode_score_key_example =
    bytes_less-encode_score_key user minus_two one_and_a_half (codes "b") (codes "a") (omega arith)
      (omega arith) refl refl

decode_score-encode_score_example : decode_score (encode_score minus_two) ≡ minus_two
decode_score-encode_score_example = decode_score-encode_score minus_two (omega arith) refl

-- The second thread read the counter before the first one moved it, and tries again.
run_turns-Ascends_example :
    Ascends 7 (versions (run_turns ((5, 7) ∷ (5, 7) ∷ (5, 8) ∷ (100, 9) ∷ []) 7))
run_turns-Ascends_example =
    run_turns-Ascends ((5, 7) ∷ (5, 7) ∷ (5, 8) ∷ (100, 9) ∷ []) 7
      (omega arith, (omega arith, (omega arith, (omega arith, tt)))) (omega arith) (omega arith)

abbrev no_error : Result ℕ (Option AnyValue)
no_error = ok (some hash_meta)

abbrev get_hash_meta : Bytes → Result ℕ (Option Bytes)
get_hash_meta key = stored no_error

-- An element of the generation before.
filter-encode_sub_key_example :
    filter get_hash_meta DataType.hash
      (record { key = encode_sub_key name_field; value = some (codes "n"); seq = 9 })
    ≡ verdict DataType.hash 9 no_error
filter-encode_sub_key_example =
    filter-encode_sub_key get_hash_meta DataType.hash name_field (codes "n") 9 no_error
      (omega arith) (omega arith, omega arith, omega arith) refl

abbrev two_keys : StorageLock
two_keys = record {
  mode = keys;
  read_keys = codes "b" ∷ codes "a" ∷ [];
  write_keys = codes "abc" ∷ [];
}

ordered_key_stripes-Ascending_example : Ascending 0 (ordered_key_stripes length two_keys 16)
ordered_key_stripes-Ascending_example = ordered_key_stripes-Ascending length two_keys 16

lookup-ordered_key_stripes_example :
    lookup 3 (ordered_key_stripes length two_keys 16)
    ≡ needed_mode
        (is_needed length 16 3 two_keys.read_keys)
        (is_needed length 16 3 two_keys.write_keys)
lookup-ordered_key_stripes_example = lookup-ordered_key_stripes length two_keys 16 3
