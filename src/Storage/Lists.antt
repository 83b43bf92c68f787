-- ===== src/Storage/Lists.antt =====
-- nimbis-storage/src/storage_list.rs: the operations on lists. Reads that the source starts together are
-- done one after the other; warnings are left out.
pub mod Span
pub mod Pops
pub mod Pop
pub mod Pushes
pub mod Push
use nimbis.Prelude.{
  ℕ, zero, suc, ◌+◌, ◌-◌, ◌%◌, ◌^◌, Bool, true, false, Bytes, List, [], ◌∷◌, ◌++◌, ltb, leb, ◌==◌,
  if◌then◌else◌, Option, none, some,
}
use nimbis.Prelude.Int.{ℤ, pos, negsuc, ◌+ℤ◌, ◌-ℤ◌, ltb_ℤ}
use nimbis.Resp.External.{External, bytes_capacity}
use nimbis.Storage.DataType.{DataType}
use nimbis.Storage.Keys.{ListElementKey, encode_list_element_key}
use nimbis.Storage.Meta.{ListMetaValue, new_list_meta}
use nimbis.Storage.Database.{Db, KeyValue, Ttl, default_ttl}
use nimbis.Storage.Elements.{is_current, current_value}
use nimbis.Storage.Sets.{first_seq}
use nimbis.Storage.Engine.{
  Action, pure, raise, ◌>>=◌, ◌>>◌, data_inconsistency, read_entry, put_entry, delete_entry,
  get_meta, put_meta, list_meta, meta_key,
}

abbrev pub element_key : Bytes → ℕ → Bytes
element_key key seq = encode_list_element_key (record { user_key = key; seq = seq })

-- `+= 1` and `-= 1` on `u64`, with wrap-around.
abbrev pub next : ℕ → ℕ
next n = (n + 1) % 2 ^ 64

abbrev pub previous : ℕ → ℕ
previous n = (n + (2 ^ 64 - 1)) % 2 ^ 64

-- Where a push puts an element, and the metadata after it.
abbrev pub place : Bool → ListMetaValue → ℕ
place true m = previous m.head
place false m = m.tail

abbrev pub pushed : Bool → ListMetaValue → ListMetaValue
pushed true m = record m { head = previous m.head; len = next m.len }
pushed false m = record m { tail = next m.tail; len = next m.len }

-- The end that a pop takes from, and the metadata after it.
abbrev pub end_of : Bool → ListMetaValue → ℕ
end_of true m = m.head
end_of false m = previous m.tail

abbrev pub popped : Bool → ListMetaValue → ListMetaValue
popped true m = record m { head = next m.head; len = previous m.len }
popped false m = record m { tail = previous m.tail; len = previous m.len }

-- `count.unwrap_or(1)`
abbrev pub count_or_one : Option ℕ → ℕ
count_or_one none = 1
count_or_one (some n) = n

-- `min(num as u64, len)`
abbrev pub at_most : ℕ → ℕ → ℕ
at_most num len = if leb num len then num else len

-- The casts between `u64` and `i64`.
abbrev pub to_i64 : ℕ → ℤ
to_i64 n = if ltb n (2 ^ 63) then pos n else negsuc (2 ^ 64 - 1 - n)

abbrev pub to_u64 : ℤ → ℕ
to_u64 (pos n) = n % 2 ^ 64
to_u64 (negsuc n) = 2 ^ 64 - 1 - n % 2 ^ 64

-- A negative index counts from the end; `len + index` has the wrap-around of `i64`.
abbrev pub from_end : ℤ → ℤ → ℤ
from_end len (pos n) = pos n
from_end len (negsuc n) = to_i64 (to_u64 (len +ℤ negsuc n))

abbrev pub max_zero : ℤ → ℤ
max_zero (pos n) = pos n
max_zero (negsuc n) = pos 0

abbrev pub min_ℤ : ℤ → ℤ → ℤ
min_ℤ a b = if ltb_ℤ b a then b else a

-- `start_seq..=stop_seq` after the indices were clamped; no numbers if the start is behind the stop.
abbrev pub seq_range : ℕ → ℤ → ℤ → ℕ × ℕ
seq_range head start stop =
    if ltb_ℤ stop start
    then (0, 0)
    else let first = (head + to_u64 start) % 2 ^ 64 in
      let last = (head + to_u64 stop) % 2 ^ 64 in (first, suc last - first)

abbrev pub range_of : ListMetaValue → ℤ → ℤ → ℕ × ℕ
range_of m start stop =
    let len = to_i64 m.len in
    seq_range m.head (max_zero (from_end len start)) (min_ℤ (len -ℤ pos 1) (from_end len stop))

abbrev pub found_or_not : Option Bytes → List Bytes → List Bytes
found_or_not none rest = rest
found_or_not (some v) rest = v ∷ rest

module _ {D E : Type 0} {db : Db D E} where
  -- The loop of a push, with the sequence number of the first put of a new list.
  unfoldable pub push_elements :
      Bytes
      → Bool
      → Bool
      → List Bytes
      → ListMetaValue
      → Option ℕ
      → Action db (ListMetaValue × Option ℕ)
  push_elements key is_left missing [] m first = pure (m, first)
  push_elements key is_left missing (element ∷ elements) m first = do
    seq ← put_entry DataType.list (element_key key (place is_left m)) element default_ttl
    push_elements key is_left missing elements (pushed is_left m) (first_seq missing first seq)

  abbrev pub put_list : Bytes → ListMetaValue → Action db ℕ
  put_list key m = do put_meta list_meta key m; pure m.len

  abbrev pub finish_push : Bytes → Bool → ListMetaValue × Option ℕ → Action db ℕ
  finish_push key false (m, first) = put_list key m
  finish_push key true (m, none) = raise data_inconsistency
  finish_push key true (m, some seq) = put_list key (record m { version = seq })

  abbrev pub push_to : Bytes → List Bytes → Bool → Bool → ListMetaValue → Action db ℕ
  push_to key elements is_left missing m =
      push_elements key is_left missing elements m none >>= finish_push key missing

  -- Without elements, the length is returned.
  abbrev pub push_nothing : Bytes → Action db ℕ
  push_nothing key = do
    found ← get_meta list_meta key
    elim found [ none ↦ pure 0 | some m ↦ pure m.len ]

  unfoldable pub list_push : Bytes → List Bytes → Bool → Action db ℕ
  unfolding push_elements
  list_push key [] is_left = push_nothing key
  list_push key (element ∷ elements) is_left = do
    found ← get_meta list_meta key
    elim found [
      | none ↦ push_to key (element ∷ elements) is_left true (new_list_meta 0)
      | some m ↦ push_to key (element ∷ elements) is_left false m
    ]

  unfoldable pub lpush : Bytes → List Bytes → Action db ℕ
  unfolding list_push
  lpush key elements = list_push key elements true

  unfoldable pub rpush : Bytes → List Bytes → Action db ℕ
  unfolding list_push
  rpush key elements = list_push key elements false

  -- The loop of a pop: an element that is missing is passed over, and nothing of the metadata changes.
  unfoldable pub pop_elements :
      Bytes → Bool → ℕ → ListMetaValue → List Bytes → Action db (ListMetaValue × List Bytes)
  pop_elements key is_left zero m results = pure (m, results)
  pop_elements key is_left (suc n) m results = do
    kv ← read_entry DataType.list (element_key key (end_of is_left m))
    elim (current_value m.version kv) [
      | none ↦ pop_elements key is_left n m results
      | some value ↦ do
        delete_entry DataType.list (element_key key (end_of is_left m))
        pop_elements key is_left n (popped is_left m) (results ++ value ∷ [])
    ]

  -- The metadata of an empty list is deleted.
  abbrev pub finish_pop : Bytes → ListMetaValue × List Bytes → Action db (List Bytes)
  finish_pop key (m, results) =
      if m.len == 0
      then (do delete_entry DataType.string (meta_key key); pure results)
      else (do put_meta list_meta key m; pure results)

  -- `none` is the panic of `Vec::with_capacity(num)`.
  abbrev pub pop_from :
      ⦃x : External⦄ → Bytes → Bool → ℕ → ListMetaValue → Action db (Option (List Bytes))
  pop_from ⦃x⦄ key is_left num m =
      if num == 0
      then pure (some [])
      else if x.has_room bytes_capacity num
      then (do
        after ← pop_elements key is_left (at_most num m.len) m []
        results ← finish_pop key after
        pure (some results))
      else pure none

  unfoldable pub list_pop :
      ⦃x : External⦄ → Bytes → Option ℕ → Bool → Action db (Option (List Bytes))
  unfolding pop_elements
  list_pop key count is_left = do
    found ← get_meta list_meta key
    elim found [ none ↦ pure (some []) | some m ↦ pop_from key is_left (count_or_one count) m ]

  unfoldable pub lpop : ⦃x : External⦄ → Bytes → Option ℕ → Action db (Option (List Bytes))
  unfolding list_pop
  lpop key count = list_pop key count true

  unfoldable pub rpop : ⦃x : External⦄ → Bytes → Option ℕ → Action db (Option (List Bytes))
  unfolding list_pop
  rpop key count = list_pop key count false

  unfoldable pub llen : Bytes → Action db ℕ
  llen key = do found ← get_meta list_meta key; elim found [ none ↦ pure 0 | some m ↦ pure m.len ]

  -- The elements at `n` sequence numbers from `seq` on; one that is missing is left out.
  unfoldable pub read_elements : Bytes → ℕ → ℕ → ℕ → Action db (List Bytes)
  read_elements key version seq zero = pure []
  read_elements key version seq (suc n) = do
    kv ← read_entry DataType.list (element_key key seq)
    rest ← read_elements key version (suc seq) n
    pure (found_or_not (current_value version kv) rest)

  abbrev pub read_range : Bytes → ℕ → ℕ × ℕ → Action db (List Bytes)
  read_range key version (first, n) = read_elements key version first n

  unfoldable pub lrange : Bytes → ℤ → ℤ → Action db (List Bytes)
  unfolding read_elements ◌+ℤ◌ ◌-ℤ◌
  lrange key start stop = do
    found ← get_meta list_meta key
    elim found [
      | none ↦ pure []
      | some m ↦ if m.len == 0 then pure [] else read_range key m.version (range_of m start stop)
    ]
