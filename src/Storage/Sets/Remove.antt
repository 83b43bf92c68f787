-- ===== src/Storage/Sets/Remove.antt =====
-- What `srem` of nimbis-storage/src/storage_set.rs leaves.
use nimbis.Prelude.{
  ℕ, ◌-◌, ◌<◌, ◌^◌, ◌≡◌, refl, true, false, Bytes, List, All, arith, ltb, ◌==◌, length, ok, Option,
  none, some, inl, inr, Bool-cases,
}
use nimbis.Storage.DataType.{DataType}
use nimbis.Storage.Meta.{SetMetaValue}
use nimbis.Storage.Database.{Db}
use nimbis.Storage.Elements.{delete_current}
use nimbis.Storage.Elements.Counted.{IsValid, Counted}
use nimbis.Storage.Elements.Validity.{found_Counted, found_Known, Looked-IsValid}
use nimbis.Storage.Elements.Deletes.{Left, Deleted, delete_current_lem}
use nimbis.Storage.Elements.Shrink.{Shrunk, keep_metadata, delete_metadata, put_metadata}
use nimbis.Storage.Engine.{World, Action, ◌>>=◌, pure, get_meta, set_meta}
use nimbis.Storage.Engine.Rules.{
  Ensures, Ensures-pure, Ensures-bind, ensures_ok, Ensures-mono, Ensures-weaken, bind_ok,
}
use nimbis.Storage.Engine.Lookup.{Looked, get_meta_lem}
use nimbis.Storage.Sets.{member_key, shrink_set, srem}
use nimbis.Storage.Sets.Keys.{sets}

module _ {D E : Type 0} {db : Db D E} where
  -- The metadata of every set counts its members.
  abbrev pub SetsValid : World db → Type 0
  SetsValid w = IsValid sets w

  shrink_set_lem :
      (key : Bytes) (m : SetMetaValue) (xs ms : List Bytes) (w : World db) (n : ℕ) (w1 : World db)
      (short : length key < 2 ^ 16) (valid : SetsValid w) (k : Counted sets w key m ms)
      → Left sets key m xs ms 0 w n w1
      → Ensures true (Shrunk sets key m xs ms w short valid k) (shrink_set key m n w1)
  shrink_set_lem key m xs ms w n w1 short valid k l =
      let total = l.count in
      let len = k.len in
      let enough : ltb m.len n ≡ false = ground arith in
      elim (Bool-cases (ltb 0 n)) [
        | inr e ↦ rw e (keep_metadata sets key m xs ms w short valid k n w1 l (ground arith))
        | inl e ↦ elim (Bool-cases (m.len - n == 0)) [
          | inl all ↦ rw (e, enough, all) (delete_metadata sets key m xs ms w short valid k n w1 l)
          | inr some_left ↦
              rw (e, enough, some_left)
                (put_metadata sets key m xs ms w short valid k n w1 (record m { len = m.len - n }) l
                  refl refl (ground arith))
        ]
      ]

  srem_found :
      (key : Bytes) (xs : List Bytes) (m : SetMetaValue) (w w1 : World db)
      → length key < 2 ^ 16
      → All (λ x. length x < 2 ^ 32) xs
      → SetsValid w
      → Looked set_meta key w (some m) w1
      → Ensures true
          (λ n w'. SetsValid w' × Deleted sets key m xs w1 n w')
          ((delete_current DataType.set (member_key key) m.version xs 0 >>= shrink_set key m) w1)
  srem_found key xs m w w1 short shorts valid l =
      let valid1 = Looked-IsValid sets key w w1 (some m) short valid l in
      let (ms, k) = found_Counted sets key w w1 m short valid l in
      Ensures-bind (delete_current DataType.set (member_key key) m.version xs 0) (shrink_set key m)
        w1
        (delete_current_lem sets key m xs ms 0 w1 short shorts k.members (valid1 key short).0
          (found_Known sets key w w1 m l))
        λ n w2 left. shrink_set_lem key m xs ms w1 n w2 short valid1 k left

  abbrev rest_of_srem : Bytes → List Bytes → Option SetMetaValue → Action db ℕ
  rest_of_srem key xs found = elim found [
    | none ↦ pure 0
    | some m ↦ delete_current DataType.set (member_key key) m.version xs 0 >>= shrink_set key m
  ]

  srem_valid :
      (key : Bytes) (xs : List Bytes) (found : Option SetMetaValue) (w w1 : World db)
      → length key < 2 ^ 16
      → All (λ x. length x < 2 ^ 32) xs
      → SetsValid w
      → Looked set_meta key w found w1
      → Ensures false (λ n w'. SetsValid w') (rest_of_srem key xs found w1)
  srem_valid key xs none w w1 short shorts valid l =
      Ensures-pure (Looked-IsValid sets key w w1 none short valid l)
  srem_valid key xs (some m) w w1 short shorts valid l =
      Ensures-weaken (Ensures-mono (srem_found key xs m w w1 short shorts valid l) λ n w' (v, _). v)

  -- A state where the metadata of every set counts its members, each once, stays so when srem ends without
  -- an error. The user key has at most 65535 bytes, the members fewer than 2 ^ 32.
  pub srem-SetsValid :
      (key : Bytes) (xs : List Bytes) (w : World db)
      → length key < 2 ^ 16
      → All (λ x. length x < 2 ^ 32) xs
      → SetsValid w
      → Ensures false (λ n w'. SetsValid w') (srem key xs w)
  unfolding srem
  srem-SetsValid key xs w short shorts valid =
      Ensures-bind (get_meta set_meta key) (rest_of_srem key xs) w (get_meta_lem set_meta key w)
        λ found w1 l. srem_valid key xs found w w1 short shorts valid l

  -- srem on a set whose metadata the lookup found: as many members are gone as it returns, among them all
  -- that were named, also when one is named twice; the others stay, and a set with no member left has no
  -- metadata any more. The only errors are those of a database. The user key has at most 65535 bytes, the
  -- members fewer than 2 ^ 32, and the metadata of every set counts its members before.
  pub srem-Deleted :
      (key : Bytes) (xs : List Bytes) (m : SetMetaValue) (w w1 : World db)
      → length key < 2 ^ 16
      → All (λ x. length x < 2 ^ 32) xs
      → SetsValid w
      → get_meta set_meta key w ≡ (ok (some m), w1)
      → Ensures true (Deleted sets key m xs w1) (srem key xs w)
  unfolding srem
  srem-Deleted key xs m w w1 short shorts valid e =
      let l = ensures_ok (get_meta_lem set_meta key w) e in
      rw (bind_ok (get_meta set_meta key) (rest_of_srem key xs) w w1 (some m) e)
        (Ensures-mono (srem_found key xs m w w1 short shorts valid l) λ n w' (_, d). d)
