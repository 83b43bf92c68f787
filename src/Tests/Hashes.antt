-- ===== src/Tests/Hashes.antt =====
-- The operations on hashes of nimbis-storage on databases in memory.
use nimbis.Prelude.{
  ◌≡◌, refl, true, false, Bytes, [], ◌∷◌, List, codes, arith, Result, ok, none, some,
}
use nimbis.Resp.Utils.{same_bytes}
use nimbis.Storage.BigEndian.{be_bytes, get_be, be_value}
use nimbis.Storage.DataType.{DataType, type_code}
use nimbis.Storage.Keys.{encode_meta_key, put_u16_len}
use nimbis.Storage.Meta.{hash_meta_with_ttl, encode_hash_meta, decode_hash_meta}
use nimbis.Storage.Database.{KeyValue}
use nimbis.Storage.Elements.Deletes.{Deleted}
use nimbis.Storage.Engine.{
  flush_all, World, StorageError, get_meta, hash_meta, meta_key, read_entry, put_entry, is_expired,
}
use nimbis.Storage.Engine.Flush.{AreCleared, flush_all-AreCleared}
use nimbis.Storage.Engine.Rules.{Ensures, ensures_ok}
use nimbis.Storage.Engine.Entries.{entry}
use nimbis.Storage.Hashes.{hash_key, hset, hget, hmget, hdel, no_values}
use nimbis.Storage.Hashes.Keys.{hashes}
use nimbis.Storage.Hashes.Set.{hset-HashesValid, hset-Holds}
use nimbis.Storage.Hashes.Update.{HashesValid, Holds, put_in, fields_of}
use nimbis.Storage.Hashes.Get.{Answer, map_values, hget-hset}
use nimbis.Storage.Hashes.Delete.{hdel-HashesValid, hdel-Deleted}
use nimbis.Tests.Memory
use nimbis.Tests.Memory.{Memory, memory_db, empty_world, all_below}

abbrev name : Bytes
name = codes "n"

abbrev field_f : Bytes
field_f = codes "f"

abbrev after : {A : Type 0} → Result (StorageError Bytes) A × World memory_db → World memory_db
after (r, w) = w

empty-HashesValid : HashesValid empty_world
empty-HashesValid = λ key h. ((λ x kv e. cc), λ kv m e d. cc)

hset-HashesValid_example :
    Ensures false (λ n w. HashesValid w) (hset name field_f (codes "v") empty_world)
hset-HashesValid_example =
    hset-HashesValid name field_f (codes "v") empty_world (omega arith) (omega arith)
      (λ kv m e d. cc) empty-HashesValid

empty-get_meta : get_meta hash_meta name empty_world ≡ (ok none, empty_world)
unfolding get_meta read_entry
empty-get_meta = refl

hset-Holds_example :
    Ensures true
      (λ n w. (n ≡ 1) × Holds name (put_in field_f (codes "v") (fields_of name none empty_world)) w)
      (hset name field_f (codes "v") empty_world)
hset-Holds_example =
    hset-Holds name field_f (codes "v") none empty_world empty_world (omega arith) (omega arith)
      (λ kv m e d. cc) empty-HashesValid empty-get_meta

-- A hash with one field.
abbrev one_field : World memory_db
one_field = record empty_world {
  hash_db = record {
    next = 2;
    entries = (hash_key name field_f, record { value = codes "v"; seq = 1; expire_ts = none }) ∷ [];
  };
  string_db = record {
    next = 2;
    entries =
        (
          meta_key name,
          record { value = encode_hash_meta (hash_meta_with_ttl 1 1 0); seq = 1; expire_ts = none },
        )
        ∷ [];
  };
}

one_field-hset : hset name field_f (codes "v") empty_world ≡ (ok 1, one_field)
unfolding hset get_meta read_entry put_entry all_below Memory.put_in
one_field-hset = refl

hget-hset_example :
    (kv : KeyValue) × (entry DataType.string one_field (meta_key name) ≡ some kv)
    × ((f : Bytes)
        → Ensures true
            (Answer
              (put_in field_f (codes "v") (fields_of name none empty_world) f)
              none
              kv.expire_ts)
            (hget name f one_field))
    × ((fs : List Bytes)
        → Ensures true
            (Answer
              (map_values (put_in field_f (codes "v") (fields_of name none empty_world)) fs)
              (no_values fs)
              kv.expire_ts)
            (hmget name fs one_field))
hget-hset_example =
    hget-hset name field_f (codes "v") none 1 empty_world empty_world one_field (omega arith)
      (omega arith) (λ kv m e d. cc) empty-HashesValid empty-get_meta one_field-hset

one_field-HashesValid : HashesValid one_field
one_field-HashesValid = ensures_ok hset-HashesValid_example one_field-hset

one_field-decode :
    decode_hash_meta (encode_hash_meta (hash_meta_with_ttl 1 1 0)) ≡ ok (hash_meta_with_ttl 1 1 0)
unfolding encode_hash_meta decode_hash_meta type_code be_bytes get_be be_value
one_field-decode = refl

one_field-entry :
    entry DataType.string one_field (meta_key name)
    ≡ some
        (record { value = encode_hash_meta (hash_meta_with_ttl 1 1 0); seq = 1; expire_ts = none })
unfolding same_bytes encode_meta_key put_u16_len be_bytes
one_field-entry = refl

hdel-HashesValid_example :
    Ensures false (λ n w. HashesValid w) (hdel name (field_f ∷ codes "g" ∷ []) one_field)
hdel-HashesValid_example =
    hdel-HashesValid name (field_f ∷ codes "g" ∷ []) one_field (omega arith)
      (omega arith, (omega arith, tt)) one_field-HashesValid

one_field-get_meta :
    get_meta hash_meta name one_field ≡ (ok (some (hash_meta_with_ttl 1 1 0)), one_field)
unfolding get_meta read_entry is_expired same_bytes encode_meta_key put_u16_len be_bytes type_code
    encode_hash_meta decode_hash_meta get_be be_value
one_field-get_meta = refl

hdel-Deleted_example :
    Ensures true
      (Deleted hashes name (hash_meta_with_ttl 1 1 0) (field_f ∷ codes "g" ∷ []) one_field)
      (hdel name (field_f ∷ codes "g" ∷ []) one_field)
hdel-Deleted_example =
    hdel-Deleted name (field_f ∷ codes "g" ∷ []) (hash_meta_with_ttl 1 1 0) one_field one_field
      (omega arith) (omega arith, (omega arith, tt)) one_field-HashesValid one_field-get_meta

flush_all-AreCleared_example :
    Ensures true (λ _ w. (t : DataType) → AreCleared t w) (flush_all one_field)
flush_all-AreCleared_example = flush_all-AreCleared one_field
