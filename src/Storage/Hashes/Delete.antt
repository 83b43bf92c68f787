-- ===== src/Storage/Hashes/Delete.antt =====
-- What `hdel` of nimbis-storage/src/storage_hash.rs leaves.
use nimbis.Prelude.{
  ℕ, ◌<◌, ◌^◌, ◌≡◌, refl, true, false, Bytes, List, All, arith, leb, ltb, length, ok, Option, none,
  some, inl, inr, Bool-cases,
}
use nimbis.Storage.DataType.{DataType}
use nimbis.Storage.Meta.{HashMetaValue}
use nimbis.Storage.Database.{Db}
use nimbis.Storage.Elements.{delete_current}
use nimbis.Storage.Elements.Counted.{Counted}
use nimbis.Storage.Elements.Validity.{found_Counted, found_Known, Looked-IsValid}
use nimbis.Storage.Elements.Deletes.{Left, Deleted, delete_current_lem}
use nimbis.Storage.Elements.Shrink.{Shrunk, keep_metadata, delete_metadata, put_metadata}
use nimbis.Storage.Engine.{World, Action, ◌>>=◌, pure, get_meta, hash_meta}
use nimbis.Storage.Engine.Rules.{
  Ensures, Ensures-pure, Ensures-bind, ensures_ok, Ensures-mono, Ensures-weaken, bind_ok,
}
use nimbis.Storage.Engine.Lookup.{Looked, get_meta_lem}
use nimbis.Storage.Hashes.{hash_key, shorter, shrink_hash, hdel}
use nimbis.Storage.Hashes.Keys.{hashes}
use nimbis.Storage.Hashes.Update.{HashesValid}

module _ {D E : Type 0} {db : Db D E} where
  shrink_hash_lem :
      (key : Bytes) (m : HashMetaValue) (fields ms : List Bytes) (w : World db) (n : ℕ)
      (w1 : World db) (short : length key < 2 ^ 16) (valid : HashesValid w)
      (k : Counted hashes w key m ms)
      → Left hashes key m fields ms 0 w n w1
      → Ensures true (Shrunk hashes key m fields ms w short valid k) (shrink_hash key m n w1)
  shrink_hash_lem key m fields ms w n w1 short valid k l = elim (Bool-cases (ltb 0 n)) [
    | inr e ↦ rw e (keep_metadata hashes key m fields ms w short valid k n w1 l (ground arith))
    | inl e ↦ elim (Bool-cases (leb m.len n)) [
      | inl all ↦ rw (e, all) (delete_metadata hashes key m fields ms w short valid k n w1 l)
      | inr some_left ↦
          rw (e, some_left)
            (put_metadata hashes key m fields ms w short valid k n w1 (shorter m n) l refl refl
              (ground arith))
    ]
  ]

  hdel_found :
      (key : Bytes) (fields : List Bytes) (m : HashMetaValue) (w w1 : World db)
      → length key < 2 ^ 16
      → All (λ f. length f < 2 ^ 32) fields
      → HashesValid w
      → Looked hash_meta key w (some m) w1
      → Ensures true
          (λ n w'. HashesValid w' × Deleted hashes key m fields w1 n w')
          ((delete_current DataType.hash (hash_key key) m.version fields 0 >>= shrink_hash key m)
            w1)
  hdel_found key fields m w w1 short shorts valid l =
      let valid1 = Looked-IsValid hashes key w w1 (some m) short valid l in
      let (ms, k) = found_Counted hashes key w w1 m short valid l in
      Ensures-bind (delete_current DataType.hash (hash_key key) m.version fields 0)
        (shrink_hash key m) w1
        (delete_current_lem hashes key m fields ms 0 w1 short shorts k.members (valid1 key short).0
          (found_Known hashes key w w1 m l))
        λ n w2 left. shrink_hash_lem key m fields ms w1 n w2 short valid1 k left

  abbrev rest_of_hdel : Bytes → List Bytes → Option HashMetaValue → Action db ℕ
  rest_of_hdel key fields found = elim found [
    | none ↦ pure 0
    | some m ↦ delete_current DataType.hash (hash_key key) m.version fields 0 >>= shrink_hash key m
  ]

  hdel_valid :
      (key : Bytes) (fields : List Bytes) (found : Option HashMetaValue) (w w1 : World db)
      → length key < 2 ^ 16
      → All (λ f. length f < 2 ^ 32) fields
      → HashesValid w
      → Looked hash_meta key w found w1
      → Ensures false (λ n w'. HashesValid w') (rest_of_hdel key fields found w1)
  hdel_valid key fields none w w1 short shorts valid l =
      Ensures-pure (Looked-IsValid hashes key w w1 none short valid l)
  hdel_valid key fields (some m) w w1 short shorts valid l =
      Ensures-weaken
        (Ensures-mono (hdel_found key fields m w w1 short shorts valid l) λ n w' (v, _). v)

  -- A state where the metadata of every hash counts its fields, each once, stays so when hdel ends without
  -- an error. The user key has at most 65535 bytes, the fields fewer than 2 ^ 32.
  pub hdel-HashesValid :
      (key : Bytes) (fields : List Bytes) (w : World db)
      → length key < 2 ^ 16
      → All (λ f. length f < 2 ^ 32) fields
      → HashesValid w
      → Ensures false (λ n w'. HashesValid w') (hdel key fields w)
  unfolding hdel
  hdel-HashesValid key fields w short shorts valid =
      Ensures-bind (get_meta hash_meta key) (rest_of_hdel key fields) w
        (get_meta_lem hash_meta key w)
        λ found w1 l. hdel_valid key fields found w w1 short shorts valid l

  -- hdel on a hash whose metadata the lookup found: as many fields are gone as it returns, among them all
  -- that were named; the others stay as they were, and a hash with no field left has no metadata any
  -- more. The only errors are those of a database. The user key has at most 65535 bytes, the fields fewer
  -- than 2 ^ 32, and the metadata of every hash counts its fields before.
  pub hdel-Deleted :
      (key : Bytes) (fields : List Bytes) (m : HashMetaValue) (w w1 : World db)
      → length key < 2 ^ 16
      → All (λ f. length f < 2 ^ 32) fields
      → HashesValid w
      → get_meta hash_meta key w ≡ (ok (some m), w1)
      → Ensures true (Deleted hashes key m fields w1) (hdel key fields w)
  unfolding hdel
  hdel-Deleted key fields m w w1 short shorts valid e =
      let l = ensures_ok (get_meta_lem hash_meta key w) e in
      rw (bind_ok (get_meta hash_meta key) (rest_of_hdel key fields) w w1 (some m) e)
        (Ensures-mono (hdel_found key fields m w w1 short shorts valid l) λ n w' (_, d). d)
