-- ===== src/Storage/Sets.antt =====
-- nimbis-storage/src/storage_set.rs: the operations on sets.
pub mod Keys
pub mod Remove
pub mod Sadd
pub mod Added
pub mod Add
use nimbis.Prelude.{
  ℕ, suc, ◌+◌, ◌-◌, ◌%◌, ◌^◌, Bool, true, false, not, Bytes, List, [], ◌∷◌, ltb, ◌==◌, length, drop,
  if◌then◌else◌, Option, none, some,
}
use nimbis.Storage.DataType.{DataType}
use nimbis.Storage.Keys.{SetMemberKey, encode_set_member_key, user_key_prefix}
use nimbis.Storage.Keys.Prefix.{starts_with}
use nimbis.Storage.Meta.{SetMetaValue, set_meta_with_ttl, encode_set_meta}
use nimbis.Storage.Database.{Db, KeyValue, Ttl, default_ttl}
use nimbis.Storage.Elements.{is_current, delete_current, has, parse_name}
use nimbis.Storage.Engine.{
  Action, pure, raise, ◌>>=◌, ◌>>◌, data_inconsistency, read_entry, put_entry, delete_entry,
  scan_from, get_meta, put_meta, set_meta, meta_key,
}

abbrev pub member_key : Bytes → Bytes → Bytes
member_key key member = encode_set_member_key (record { user_key = key; member = member })

-- The filter by `unique_members.insert`: a member that was seen is dropped.
unfoldable pub unique : List Bytes → List Bytes → List Bytes
unique seen [] = []
unique seen (x ∷ xs) =
    let new = unique (x ∷ seen) xs in
    let old = unique seen xs in if has x seen then old else x ∷ new

-- The names from one entry on: the scan ends at the first key without the prefix.
unfoldable pub collect_members : Bytes → ℕ → List (Bytes × KeyValue) → List Bytes
collect_members prefix version [] = []
collect_members prefix version ((k, kv) ∷ es) =
    let rest = collect_members prefix version es in
    if not (starts_with prefix k)
    then []
    else if ltb kv.seq version
    then rest
    else elim (parse_name (drop (length prefix) k)) [ none ↦ rest | some member ↦ member ∷ rest ]

-- `first_added_seq`, if the metadata is missing.
abbrev pub first_seq : Bool → Option ℕ → ℕ → Option ℕ
first_seq false first seq = first
first_seq true none seq = some seq
first_seq true (some n) seq = some n

abbrev pub new_set : SetMetaValue
new_set = set_meta_with_ttl 0 0 0

-- `len += n`, with the wrap-around of `u64`.
abbrev pub with_added : SetMetaValue → ℕ → SetMetaValue
with_added m n = record m { len = (m.len + n) % 2 ^ 64 }

-- `len -= n`, with the wrap-around of `u64`.
abbrev pub with_removed : SetMetaValue → ℕ → SetMetaValue
with_removed m n = record m { len = if ltb m.len n then m.len + 2 ^ 64 - n else m.len - n }

module _ {D E : Type 0} {db : Db D E} where
  -- With missing metadata, no member is looked up.
  abbrev pub member_exists : Bytes → Bool → ℕ → Bytes → Action db Bool
  member_exists key true version member = pure false
  member_exists key false version member = do
    kv ← read_entry DataType.set (member_key key member)
    pure (is_current version kv)

  -- The loop over the members, with the number of those that were added and the first sequence number.
  unfoldable pub add_members :
      Bytes → Bool → ℕ → List Bytes → ℕ → Option ℕ → Action db (ℕ × Option ℕ)
  add_members key missing version [] added first = pure (added, first)
  add_members key missing version (member ∷ members) added first = do
    there ← member_exists key missing version member
    if there then add_members key missing version members added first else (do
      seq ← put_entry DataType.set (member_key key member) [] default_ttl
      add_members key missing version members (suc added) (first_seq missing first seq))

  abbrev pub put_added : Bytes → SetMetaValue → ℕ → Action db ℕ
  put_added key m added = do put_meta set_meta key (with_added m added); pure added

  -- From the test on whether anything was added.
  abbrev pub finish_add : Bytes → Bool → SetMetaValue → ℕ × Option ℕ → Action db ℕ
  finish_add key false m (added, first) = if ltb 0 added then put_added key m added else pure added
  finish_add key true m (added, none) = if ltb 0 added then raise data_inconsistency else pure added
  finish_add key true m (added, some seq) =
      if ltb 0 added then put_added key (record m { version = seq }) added else pure added

  abbrev pub add_to : Bytes → List Bytes → Bool → SetMetaValue → Action db ℕ
  add_to key members missing m =
      add_members key missing m.version (unique [] members) 0 none >>= finish_add key missing m

  unfoldable pub sadd : Bytes → List Bytes → Action db ℕ
  unfolding unique add_members
  sadd key members = do
    found ← get_meta set_meta key
    elim found [ none ↦ add_to key members true new_set | some m ↦ add_to key members false m ]

  unfoldable pub smembers : Bytes → Action db (List Bytes)
  unfolding collect_members
  smembers key = do
    found ← get_meta set_meta key
    elim found [
      | none ↦ pure []
      | some m ↦ do
        es ← scan_from DataType.set (user_key_prefix key)
        pure (collect_members (user_key_prefix key) m.version es)
    ]

  unfoldable pub sismember : Bytes → Bytes → Action db Bool
  sismember key member = do
    found ← get_meta set_meta key
    elim found [ none ↦ pure false | some m ↦ member_exists key false m.version member ]

  -- The metadata of an empty set is deleted.
  abbrev pub shrink_set : Bytes → SetMetaValue → ℕ → Action db ℕ
  shrink_set key m removed =
      if ltb 0 removed
      then (if (with_removed m removed).len == 0
          then (do delete_entry DataType.string (meta_key key); pure removed)
          else (do put_meta set_meta key (with_removed m removed); pure removed))
      else pure removed

  unfoldable pub srem : Bytes → List Bytes → Action db ℕ
  unfolding delete_current
  srem key members = do
    found ← get_meta set_meta key
    elim found [
      | none ↦ pure 0
      | some m ↦
          delete_current DataType.set (member_key key) m.version members 0 >>= shrink_set key m
    ]

  unfoldable pub scard : Bytes → Action db ℕ
  scard key = do found ← get_meta set_meta key; elim found [ none ↦ pure 0 | some m ↦ pure m.len ]
