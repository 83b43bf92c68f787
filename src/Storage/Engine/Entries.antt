-- ===== src/Storage/Engine/Entries.antt =====
-- What the calls of the databases in nimbis-storage/src/storage.rs do to the entries.
use nimbis.Prelude.{
  ℕ, suc, ◌<◌, ◌^◌, ◌≡◌, ◌∙◌, refl, ap, Bool, false, Bytes, List, Result, ok, err, Option, none,
  some,
}
use nimbis.Resp.Utils.{same_bytes}
use nimbis.Storage.BytesEq.{same_bytes_refl}
use nimbis.Storage.DataType.{DataType}
use nimbis.Storage.Compaction.{same_type}
use nimbis.Storage.Database.{Db, KeyValue, Ttl, BatchOp, Reads, Expiry, after_batch}
use nimbis.Storage.Engine.{
  World, db_of, with_db, returned, stored_as, changed, read_entry, put_entry, delete_entry,
  write_batch, scan_from, read_clock, is_expired,
}
use nimbis.Storage.Engine.Rules.{Ensures, Ensures-pure, database_error-Allowed}

module _ {D E : Type 0} {db : Db D E} where
  abbrev pub entry : DataType → World db → Bytes → Option KeyValue
  entry t w k = db.view (db_of t w) k

  -- The entry under one key of one database becomes `r`, and nothing else changes.
  pub record Change (t : DataType) (k : Bytes) (w w' : World db) (r : Option KeyValue)
      : Type 0 where
    pub there : entry t w' k ≡ r
    pub others : (j : Bytes) → same_bytes j k ≡ false → entry t w' j ≡ entry t w j
    pub elsewhere : (s : DataType) → same_type s t ≡ false → db_of s w' ≡ db_of s w

  -- A put with the sequence number `n`.
  pub record Put (t : DataType) (k v : Bytes) (ttl : Ttl) (n : ℕ) (w w' : World db) : Type 0 where
    pub expires : Option ℕ
    pub expiry : Expiry ttl expires
    pub change : Change t k w w' (some (record { value = v; seq = n; expire_ts = expires }))
    pub newer : (j : Bytes) (kv : KeyValue) → entry t w j ≡ some kv → kv.seq < n
    pub bound : n < 2 ^ 64

  with_db_same :
      (t s : DataType) (d : D) (w : World db)
      → same_type s t ≡ false
      → db_of s (with_db t d w) ≡ db_of s w
  unfolding same_type
  with_db_same DataType.string DataType.string d w h = cc
  with_db_same DataType.hash DataType.hash d w h = cc
  with_db_same DataType.set DataType.set d w h = cc
  with_db_same DataType.list DataType.list d w h = cc
  with_db_same DataType.zset DataType.zset d w h = cc
  with_db_same DataType.string _ d w h = refl
  with_db_same DataType.hash _ d w h = refl
  with_db_same DataType.set _ d w h = refl
  with_db_same DataType.list _ d w h = refl
  with_db_same DataType.zset _ d w h = refl

  db_of-with_db : (t : DataType) (d : D) (w : World db) → db_of t (with_db t d w) ≡ d
  db_of-with_db DataType.string d w = refl
  db_of-with_db DataType.hash d w = refl
  db_of-with_db DataType.set d w = refl
  db_of-with_db DataType.list d w = refl
  db_of-with_db DataType.zset d w = refl

  entry-with_db :
      (t : DataType) (d : D) (w : World db) (k : Bytes) → entry t (with_db t d w) k ≡ db.view d k
  entry-with_db t d w k = ap (λ x. db.view x k) (db_of-with_db t d w)

  returned_lem :
      {A : Type 0} {strict : Bool} (P : A → World db → Type 0) (w : World db) (r : Result E A)
      → ((a : A) → r ≡ ok a → P a w)
      → Ensures strict P (returned w r)
  returned_lem P w (ok a) h = Ensures-pure (h a refl)
  returned_lem {strict = strict} P w (err e) h = record {
    outcome = database_error-Allowed strict e;
  }

  pub read_entry_lem :
      {strict : Bool} (t : DataType) (k : Bytes) (w : World db)
      → Ensures strict (λ r w'. (w' ≡ w) × Reads (entry t w k) r) (read_entry t k w)
  unfolding read_entry
  read_entry_lem t k w =
      returned_lem (λ r w'. (w' ≡ w) × Reads (entry t w k) r) w (db.get_key_value (db_of t w) k)
        λ r e. (refl, db.get-view (db_of t w) k r e)

  pub scan_from_lem :
      {strict : Bool} (t : DataType) (start : Bytes) (w : World db)
      → Ensures strict
          (λ es w'. (w' ≡ w) × (db.scan (db_of t w) start ≡ ok es))
          (scan_from t start w)
  unfolding scan_from
  scan_from_lem t start w =
      returned_lem (λ es w'. (w' ≡ w) × (db.scan (db_of t w) start ≡ ok es)) w
        (db.scan (db_of t w) start) λ es e. (refl, e)

  Put-change :
      (t : DataType) (k v : Bytes) (ttl : Ttl) (w : World db) (d : D) (n : ℕ)
      → db.put_with_options (db_of t w) k v ttl ≡ ok (d, n)
      → Put t k v ttl n w (with_db t d w)
  Put-change t k v ttl w d n e =
      let (ts, at_key, expiry, bound) = db.put-view (db_of t w) d k v ttl n e in
      record {
        expires = ts;
        expiry = expiry;
        change = record {
          there = entry-with_db t d w k ∙ at_key;
          others = λ j h. entry-with_db t d w j ∙ (db.put-others (db_of t w) d k v ttl n e j h);
          elsewhere = λ s h. with_db_same t s d w h;
        };
        newer = λ j kv h. db.put_newer (db_of t w) d k v ttl n e j kv h;
        bound = bound;
      }

  Put-outcome :
      {strict : Bool} (t : DataType) (k v : Bytes) (ttl : Ttl) (w : World db) (r : Result E (D × ℕ))
      → db.put_with_options (db_of t w) k v ttl ≡ r
      → Ensures strict (λ n w'. Put t k v ttl n w w') (stored_as t w r)
  Put-outcome t k v ttl w (ok (d, n)) e = Ensures-pure (Put-change t k v ttl w d n e)
  Put-outcome {strict} t k v ttl w (err x) e = record { outcome = database_error-Allowed strict x }

  pub put_entry_lem :
      {strict : Bool} (t : DataType) (k v : Bytes) (ttl : Ttl) (w : World db)
      → Ensures strict (λ n w'. Put t k v ttl n w w') (put_entry t k v ttl w)
  unfolding put_entry
  put_entry_lem t k v ttl w = Put-outcome t k v ttl w _ refl

  delete-Change :
      (t : DataType) (k : Bytes) (w : World db) (d : D)
      → db.delete_with_options (db_of t w) k ≡ ok d
      → Change t k w (with_db t d w) none
  delete-Change t k w d e =
      let left = db.delete-view (db_of t w) d k e in
      record {
        there = entry-with_db t d w k ∙ rw (left k, same_bytes_refl k);
        others = λ j h. entry-with_db t d w j ∙ rw (left j, h);
        elsewhere = λ s h. with_db_same t s d w h;
      }

  delete_outcome :
      {strict : Bool} (t : DataType) (k : Bytes) (w : World db) (r : Result E D)
      → db.delete_with_options (db_of t w) k ≡ r
      → Ensures strict (λ _ w'. Change t k w w' none) (changed t w r)
  delete_outcome t k w (ok d) e = Ensures-pure (delete-Change t k w d e)
  delete_outcome {strict} t k w (err x) e = record { outcome = database_error-Allowed strict x }

  pub delete_entry_lem :
      {strict : Bool} (t : DataType) (k : Bytes) (w : World db)
      → Ensures strict (λ _ w'. Change t k w w' none) (delete_entry t k w)
  unfolding delete_entry
  delete_entry_lem t k w = delete_outcome t k w _ refl

  -- A batch with the sequence number `n`.
  pub record Written (t : DataType) (ops : List BatchOp) (n : ℕ) (w w' : World db) : Type 0 where
    pub after : (j : Bytes) → entry t w' j ≡ after_batch ops n j (entry t w j)
    pub elsewhere : (s : DataType) → same_type s t ≡ false → db_of s w' ≡ db_of s w
    pub newer : (j : Bytes) (kv : KeyValue) → entry t w j ≡ some kv → kv.seq < n
    pub bound : n < 2 ^ 64

  write_outcome :
      {strict : Bool} (t : DataType) (ops : List BatchOp) (w : World db) (r : Result E D)
      → db.write_with_options (db_of t w) ops ≡ r
      → Ensures strict (λ _ w'. (n : ℕ) × Written t ops n w w') (changed t w r)
  write_outcome t ops w (ok d) e =
      let (n, after, newer, bound) = db.write-view (db_of t w) d ops e in
      Ensures-pure (
        n,
        record {
          after = λ j. entry-with_db t d w j ∙ after j;
          elsewhere = λ s h. with_db_same t s d w h;
          newer = newer;
          bound = bound;
        },
      )
  write_outcome {strict} t ops w (err x) e = record { outcome = database_error-Allowed strict x }

  pub write_batch_lem :
      {strict : Bool} (t : DataType) (ops : List BatchOp) (w : World db)
      → Ensures strict (λ _ w'. (n : ℕ) × Written t ops n w w') (write_batch t ops w)
  unfolding write_batch
  write_batch_lem t ops w = write_outcome t ops w _ refl

  -- Reading the clock changes no entry.
  pub is_expired_lem :
      {strict : Bool} (ts : Option ℕ) (w : World db)
      → Ensures strict (λ _ w'. (n : ℕ) × (w' ≡ record w { ticks = n })) (is_expired ts w)
  unfolding is_expired read_clock
  is_expired_lem none w = Ensures-pure (w.ticks, refl)
  is_expired_lem (some ts) w = Ensures-pure (suc w.ticks, refl)
