-- ===== src/Tests/Zsets.antt =====
-- The operations on sorted sets of nimbis-storage on a database in memory.
use nimbis.Prelude.{
  ◌≡◌, false, refl, Bytes, List, [], ◌∷◌, codes, arith, ok, err, some, Option, none, Result,
}
use nimbis.Resp.Types.{F64}
use nimbis.Storage.Engine.{
  World, StorageError, get_meta, put_meta, meta_put_opts, is_expired, read_entry, put_entry,
  write_batch, ◌>>=◌,
}
use nimbis.Storage.Engine.Rules.{Ensures}
use nimbis.Storage.Zsets.{
  Element, zadd, zscore, insert_score, last_scores, add_elements, read_scores,
}
use nimbis.Storage.Zsets.Scores.{last_score_of}
use nimbis.Storage.Zsets.Scored.{Scored, zadd-Scored}
use nimbis.Resp.Utils.{same_bytes}
use nimbis.Storage.BigEndian.{be_bytes, get_be, be_value, bytes_less}
use nimbis.Storage.DataType.{type_code}
use nimbis.Storage.Score.{encode_score, decode_score}
use nimbis.Storage.Keys.{
  encode_meta_key, encode_member_key, encode_score_key, put_u16_len, put_u32_len,
}
use nimbis.Storage.Meta.{encode_zset_meta, decode_zset_meta}
use nimbis.Tests.Memory.{memory_db, empty_world, put_in, delete_in, all_below, run_batch}
use nimbis.Tests.Server.{in_order}

abbrev name : Bytes
name = codes "z"

-- The bits of 1.5 and of -2.0.
abbrev one_and_a_half : F64
one_and_a_half = 0x3ff8_0000_0000_0000

abbrev minus_two : F64
minus_two = 0xc000_0000_0000_0000

-- The member `a` is named twice.
abbrev three : List Element
three = (minus_two, codes "a") ∷ (minus_two, codes "b") ∷ (one_and_a_half, codes "a") ∷ []

zadd-Scored_example :
    Ensures false
      (λ _ w. Scored name (λ x. last_score_of x three) empty_world w)
      (zadd name three empty_world)
zadd-Scored_example =
    zadd-Scored name three empty_world
      ((omega arith, refl), ((omega arith, refl), ((omega arith, refl), tt)))

abbrev score_read : Result (StorageError Bytes) (Option F64) × World memory_db → Option F64
score_read (ok s, w) = s
score_read (err e, w) = none

-- What a member has after the three scores.
abbrev score_after : Bytes → Option F64
score_after m = score_read ((zadd name three >>= (λ _. zscore name m)) empty_world)

score_after_three : score_after (codes "a") ≡ some one_and_a_half
unfolding zadd zscore get_meta read_entry put_entry put_meta meta_put_opts is_expired write_batch
    last_scores insert_score add_elements read_scores same_bytes all_below put_in delete_in
    run_batch encode_meta_key encode_member_key encode_score_key put_u16_len put_u32_len be_bytes
    type_code encode_zset_meta decode_zset_meta get_be be_value encode_score decode_score bytes_less
score_after_three = refl
