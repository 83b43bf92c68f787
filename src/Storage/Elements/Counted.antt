-- ===== src/Storage/Elements/Counted.antt =====
-- The invariant of the collections whose metadata counts their elements (nimbis-storage/src: hashes and
-- sets): the length in the metadata is the number of elements of the generation.
use nimbis.Prelude.{
  ℕ, ◌<◌, ◌^◌, ◌≡◌, ◌≢◌, ◌∙◌, refl, ap, false, Bytes, List, [], append-nil, length, Option, none,
  some, ok,
}
use nimbis.Resp.Utils.{same_bytes}
use nimbis.Storage.BytesEq.{same_bytes_of_ne, ne_of_same_bytes}
use nimbis.Storage.DataType.{DataType}
use nimbis.Storage.Compaction.{same_type}
use nimbis.Storage.Keys.{encode_meta_key}
use nimbis.Storage.Keys.Prefix.{counted_inj}
use nimbis.Storage.Database.{Db, KeyValue}
use nimbis.Storage.Elements.{HasMembers}
use nimbis.Storage.Engine.{World, MetaValue, with_expiry, meta_key, db_of}
use nimbis.Storage.Engine.Entries.{entry, Change}
use nimbis.Storage.Engine.Lookup.{Looked, Stored}

-- The collections of one type: their metadata has a version and a length, which the encoding keeps, and
-- the keys of the elements are different for different elements and for different user keys.
pub record Collection {T : Type 0} (meta : MetaValue T) : Type 0 where
  pub type : DataType
  pub apart : same_type type DataType.string ≡ false
  pub sub : Bytes → Bytes → Bytes
  pub distinct :
      (key x y : Bytes) → same_bytes x y ≡ false → same_bytes (sub key x) (sub key y) ≡ false
  pub foreign :
      (key key' x y : Bytes)
      → length key < 2 ^ 16
      → length key' < 2 ^ 16
      → same_bytes key' key ≡ false
      → same_bytes (sub key' x) (sub key y) ≡ false
  pub version_of : T → ℕ
  pub len_of : T → ℕ
  pub decode-encode :
      (m : T)
      → version_of m < 2 ^ 64
      → len_of m < 2 ^ 64
      → (m' : T) × (meta.decode (meta.encode m) ≡ ok m')
        × (version_of m' ≡ version_of m)
        × (len_of m' ≡ len_of m)
  pub version-expiry : (m : T) (ts : ℕ) → version_of (meta.set_expire_time m ts) ≡ version_of m
  pub len-expiry : (m : T) (ts : ℕ) → len_of (meta.set_expire_time m ts) ≡ len_of m

meta_key_apart :
    (key key' : Bytes)
    → length key < 2 ^ 16
    → length key' < 2 ^ 16
    → same_bytes key' key ≡ false
    → same_bytes (meta_key key') (meta_key key) ≡ false
unfolding encode_meta_key
meta_key_apart key key' h h' n = same_bytes_of_ne _ _ λ e.
    let (same, _) = counted_inj key' key [] [] h' h (rw (append-nil key', append-nil key) e) in
    ne_of_same_bytes key' key n same

same_type_sym : (s t : DataType) → same_type s t ≡ false → same_type t s ≡ false
unfolding same_type
same_type_sym DataType.string DataType.string h = cc
same_type_sym DataType.hash DataType.hash h = cc
same_type_sym DataType.set DataType.set h = cc
same_type_sym DataType.list DataType.list h = cc
same_type_sym DataType.zset DataType.zset h = cc
same_type_sym DataType.string _ h = refl
same_type_sym DataType.hash _ h = refl
same_type_sym DataType.set _ h = refl
same_type_sym DataType.list _ h = refl
same_type_sym DataType.zset _ h = refl

pub none-ne-some : {A : Type 0} {a : A} → none ≢ some a
none-ne-some = cc

pub version-with_expiry :
    {T : Type 0} {meta : MetaValue T} (c : Collection meta) (ts : Option ℕ) (m : T)
    → (c.version_of (with_expiry meta ts m) ≡ c.version_of m)
      × (c.len_of (with_expiry meta ts m) ≡ c.len_of m)
version-with_expiry c none m = (refl, refl)
version-with_expiry c (some ts) m = (c.version-expiry m ts, c.len-expiry m ts)

module _ {D E : Type 0} {db : Db D E} {T : Type 0} {meta : MetaValue T} (c : Collection meta) where
  abbrev pub elements : World db → Bytes → Bytes → Option KeyValue
  elements w key x = entry c.type w (c.sub key x)

  -- The metadata `m` counts the elements `ms`.
  pub record Counted (w : World db) (key : Bytes) (m : T) (ms : List Bytes) : Type 0 where
    pub nonempty : 0 < length ms
    pub len : c.len_of m ≡ length ms
    pub bound : c.version_of m < 2 ^ 64
    pub len_bound : c.len_of m < 2 ^ 64
    pub members : HasMembers (c.version_of m) (elements w key) ms

  -- The elements do not expire by themselves.
  abbrev pub AreLasting : World db → Bytes → Type 0
  AreLasting w key = (x : Bytes) (kv : KeyValue) → elements w key x ≡ some kv → kv.expire_ts ≡ none

  abbrev pub IsCounted : World db → Bytes → Type 0
  IsCounted w key =
      (kv : KeyValue) (m : T)
      → entry DataType.string w (meta_key key) ≡ some kv
      → meta.decode kv.value ≡ ok m
      → (ms : List Bytes) × Counted w key m ms

  abbrev pub IsValidAt : World db → Bytes → Type 0
  IsValidAt w key = AreLasting w key × IsCounted w key

  abbrev pub IsValid : World db → Type 0
  IsValid w = (key : Bytes) → length key < 2 ^ 16 → IsValidAt w key

  -- Only what belongs to `key` changes.
  pub record Only (key : Bytes) (w w' : World db) : Type 0 where
    pub strings :
        (key' : Bytes)
        → length key' < 2 ^ 16
        → same_bytes key' key ≡ false
        → entry DataType.string w' (meta_key key') ≡ entry DataType.string w (meta_key key')
    pub others :
        (key' x : Bytes)
        → length key' < 2 ^ 16
        → same_bytes key' key ≡ false
        → entry c.type w' (c.sub key' x) ≡ entry c.type w (c.sub key' x)

  pub Only-trans :
      (key : Bytes) (w w1 w2 : World db) → Only key w w1 → Only key w1 w2 → Only key w w2
  Only-trans key w w1 w2 a b = record {
    strings = λ k h n. b.strings k h n ∙ a.strings k h n;
    others = λ k x h n. b.others k x h n ∙ a.others k x h n;
  }

  pub entry_elsewhere :
      (s : DataType) (w w' : World db) (k : Bytes)
      → db_of s w' ≡ db_of s w
      → entry s w' k ≡ entry s w k
  entry_elsewhere s w w' k e = ap (λ d. db.view d k) e

  pub string_elsewhere :
      (w w' : World db) (k : Bytes)
      → ((s : DataType) → same_type s c.type ≡ false → db_of s w' ≡ db_of s w)
      → entry DataType.string w' k ≡ entry DataType.string w k
  string_elsewhere w w' k h =
      entry_elsewhere DataType.string w w' k
        (h DataType.string (same_type_sym c.type DataType.string c.apart))

  pub Only-Change :
      (key x : Bytes) (w w' : World db) (r : Option KeyValue)
      → length key < 2 ^ 16
      → Change c.type (c.sub key x) w w' r
      → Only key w w'
  Only-Change key x w w' r h ch = record {
    strings = λ k l n. string_elsewhere w w' (meta_key k) ch.elsewhere;
    others = λ k y l n. ch.others (c.sub k y) (c.foreign key k y x h l n);
  }

  pub Only-Stored :
      (key bytes : Bytes) (w w' : World db)
      → length key < 2 ^ 16
      → Stored meta key bytes w w'
      → Only key w w'
  Only-Stored key bytes w w' h st = record {
    strings = λ k l n. st.others (meta_key k) (meta_key_apart key k h l n);
    others = λ k y l n. entry_elsewhere c.type w w' (c.sub k y) (st.elsewhere c.type c.apart);
  }

  pub Only-deleted :
      (key : Bytes) (w w' : World db)
      → length key < 2 ^ 16
      → Change DataType.string (meta_key key) w w' none
      → Only key w w'
  Only-deleted key w w' h ch = record {
    strings = λ k l n. ch.others (meta_key k) (meta_key_apart key k h l n);
    others = λ k y l n. entry_elsewhere c.type w w' (c.sub k y) (ch.elsewhere c.type c.apart);
  }

  pub Only-Looked :
      (key : Bytes) (w w' : World db) (found : Option T)
      → length key < 2 ^ 16
      → Looked meta key w found w'
      → Only key w w'
  Only-Looked key w w' found h l = record {
    strings = λ k b n. l.others (meta_key k) (meta_key_apart key k h b n);
    others = λ k y b n. entry_elsewhere c.type w w' (c.sub k y) (l.elsewhere c.type c.apart);
  }
