-- ===== src/Storage/Elements.antt =====
-- What the collections of nimbis-storage/src/storage_*.rs have in common: an element counts if it was
-- written in the generation that the metadata of its user key names.
pub mod Members
pub mod Counted
pub mod Validity
pub mod Writes
pub mod Deletes
pub mod Shrink
use nimbis.Prelude.{
  ℕ, suc, ◌+◌, ◌<◌, ◌^◌, ◌≡◌, Bool, true, false, Bytes, List, [], ◌∷◌, leb, ltb, ◌==◌, drop,
  if◌then◌else◌, length, Option, none, some, Result, ok,
}
use nimbis.Resp.Utils.{same_bytes}
use nimbis.Storage.BigEndian.{get_be}
use nimbis.Storage.DataType.{DataType}
use nimbis.Storage.Database.{Db, KeyValue}
use nimbis.Storage.Engine.{Action, pure, ◌>>=◌, ◌>>◌, read_entry, delete_entry}

-- `is_some_and(|kv| kv.seq >= version)`
abbrev pub is_current : ℕ → Option KeyValue → Bool
is_current version none = false
is_current version (some kv) = leb version kv.seq

-- `filter(|kv| kv.seq >= version).map(|kv| kv.value)`
abbrev pub current_value : ℕ → Option KeyValue → Option Bytes
current_value version none = none
current_value version (some kv) = if leb version kv.seq then some kv.value else none

abbrev pub has : Bytes → List Bytes → Bool
has x [] = false
has x (y ∷ ys) = if same_bytes x y then true else has x ys

abbrev pub without : Bytes → List Bytes → List Bytes
without x [] = []
without x (y ∷ ys) = if same_bytes x y then ys else y ∷ without x ys

abbrev pub AreDistinct : List Bytes → Type 0
AreDistinct [] = Unit
AreDistinct (x ∷ xs) = (has x xs ≡ false) × AreDistinct xs

-- The name of a field or a member behind the prefix of its user key.
abbrev pub parse_name : Bytes → Option Bytes
parse_name suffix =
    if ltb (length suffix) 4
    then none
    else if length (drop 4 suffix) == get_be 4 suffix
    then some (drop 4 suffix)
    else none

-- The entries `e` of a collection in the generation `version` are those of the members `ms`, each once.
-- A name of an element has its length in 32 bits.
pub record HasMembers (version : ℕ) (e : Bytes → Option KeyValue) (ms : List Bytes) : Type 0 where
  pub distinct : AreDistinct ms
  pub short : (x : Bytes) → has x ms ≡ true → length x < 2 ^ 32
  pub present : (x : Bytes) → length x < 2 ^ 32 → has x ms ≡ is_current version (e x)

-- The loops of `hdel` and `srem`: the elements with these names that are there are deleted, and counted.
module _ {D E : Type 0} {db : Db D E} (t : DataType) (key_of : Bytes → Bytes) (version : ℕ) where
  unfoldable pub delete_current : List Bytes → ℕ → Action db ℕ
  delete_current [] deleted = pure deleted
  delete_current (name ∷ names) deleted = do
    kv ← read_entry t (key_of name)
    if is_current version kv
        then (do delete_entry t (key_of name); delete_current names (suc deleted))
        else delete_current names deleted
