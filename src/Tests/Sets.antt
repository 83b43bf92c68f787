-- ===== src/Tests/Sets.antt =====
-- The operations on sets of nimbis-storage on databases in memory.
use nimbis.Prelude.{
  ◌≡◌, refl, true, false, ◌||◌, Bytes, List, [], ◌∷◌, codes, arith, ok, none, some,
}
use nimbis.Resp.Utils.{same_bytes}
use nimbis.Storage.BigEndian.{be_bytes, get_be, be_value}
use nimbis.Storage.DataType.{type_code}
use nimbis.Storage.Keys.{encode_meta_key, put_u16_len}
use nimbis.Storage.Meta.{set_meta_with_ttl, encode_set_meta, decode_set_meta}
use nimbis.Storage.Elements.{has}
use nimbis.Storage.Elements.Deletes.{Deleted}
use nimbis.Storage.Engine.{
  World, get_meta, set_meta, meta_key, read_entry, put_entry, put_meta, meta_put_opts, is_expired,
}
use nimbis.Storage.Engine.Rules.{Ensures, ensures_ok}
use nimbis.Storage.Sets.{member_key, sadd, srem, unique, add_members}
use nimbis.Storage.Sets.Keys.{sets}
use nimbis.Storage.Sets.Remove.{SetsValid, srem-SetsValid, srem-Deleted}
use nimbis.Storage.Sets.Added.{SetAt}
use nimbis.Storage.Sets.Sadd.{members_of, sadd-SetsValid, sadd-SetAt}
use nimbis.Tests.Memory.{memory_db, empty_world, put_in, all_below}

abbrev name : Bytes
name = codes "n"

-- One member, named twice.
abbrev twice : List Bytes
twice = codes "a" ∷ codes "a" ∷ []

empty-SetsValid : SetsValid empty_world
empty-SetsValid = λ key h. ((λ x kv e. cc), λ kv m e d. cc)

sadd-SetsValid_example : Ensures false (λ n w. SetsValid w) (sadd name twice empty_world)
sadd-SetsValid_example =
    sadd-SetsValid name (codes "a") (codes "a" ∷ []) empty_world (omega arith)
      (omega arith, (omega arith, tt)) (omega arith) (λ kv m e d. cc) empty-SetsValid

empty-get_meta : get_meta set_meta name empty_world ≡ (ok none, empty_world)
unfolding get_meta read_entry
empty-get_meta = refl

sadd-SetAt_example :
    Ensures true
      (λ n w. SetAt name (λ x. has x twice || members_of name none empty_world x) w)
      (sadd name twice empty_world)
sadd-SetAt_example =
    sadd-SetAt name (codes "a") (codes "a" ∷ []) none empty_world empty_world (omega arith)
      (omega arith, (omega arith, tt)) (omega arith) (λ kv m e d. cc) empty-SetsValid empty-get_meta

-- A set with one member.
abbrev one_member : World memory_db
one_member = record empty_world {
  set_db = record {
    next = 2;
    entries = (member_key name (codes "a"), record { value = []; seq = 1; expire_ts = none }) ∷ [];
  };
  string_db = record {
    next = 2;
    entries =
        (
          meta_key name,
          record { value = encode_set_meta (set_meta_with_ttl 1 1 0); seq = 1; expire_ts = none },
        )
        ∷ [];
  };
}

one_member-sadd : sadd name twice empty_world ≡ (ok 1, one_member)
unfolding sadd get_meta read_entry put_entry put_meta meta_put_opts unique add_members same_bytes
    all_below put_in
one_member-sadd = refl

one_member-SetsValid : SetsValid one_member
one_member-SetsValid = ensures_ok sadd-SetsValid_example one_member-sadd

srem-SetsValid_example : Ensures false (λ n w. SetsValid w) (srem name twice one_member)
srem-SetsValid_example =
    srem-SetsValid name twice one_member (omega arith) (omega arith, (omega arith, tt))
      one_member-SetsValid

one_member-get_meta :
    get_meta set_meta name one_member ≡ (ok (some (set_meta_with_ttl 1 1 0)), one_member)
unfolding get_meta read_entry is_expired same_bytes encode_meta_key put_u16_len be_bytes type_code
    encode_set_meta decode_set_meta get_be be_value
one_member-get_meta = refl

srem-Deleted_example :
    Ensures true
      (Deleted sets name (set_meta_with_ttl 1 1 0) twice one_member)
      (srem name twice one_member)
srem-Deleted_example =
    srem-Deleted name twice (set_meta_with_ttl 1 1 0) one_member one_member (omega arith)
      (omega arith, (omega arith, tt)) one_member-SetsValid one_member-get_meta
