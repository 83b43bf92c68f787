-- ===== src/Storage/Engine/Lookup.antt =====
-- What `get_meta` and a put of metadata (nimbis-storage/src/storage.rs) do to the entries.
use nimbis.Prelude.{
  ℕ, suc, ◌≡◌, ◌∙◌, refl, sym, subst, ap, Bool, true, false, Bytes, [], ◌∷◌, if◌then◌else◌, ◌==◌,
  Result, ok, err, Option, none, some, inl, inr, ◌⊎◌, Bool-cases,
}
use nimbis.Resp.Utils.{same_bytes}
use nimbis.Storage.DataType.{DataType, DecoderError}
use nimbis.Storage.Compaction.{same_type}
use nimbis.Storage.Database.{Db, KeyValue, Ttl, Reads}
use nimbis.Storage.Engine.{
  World, put_entry, pure, ◌>>=◌, db_of, MetaValue, with_expiry, meta_key, is_type_match, decoded,
  decode_entry, judge_entry, get_meta, meta_put_opts, put_meta, is_expired, read_clock,
  delete_entry, read_entry,
}
use nimbis.Storage.Engine.Rules.{Ensures, Ensures-pure, Ensures-bind, Ensures-mono}
use nimbis.Storage.Engine.Entries.{
  is_expired_lem, entry, Put, read_entry_lem, put_entry_lem, delete_entry_lem,
}

-- What the bytes of an entry stand for.
abbrev pub Decodes : {T : Type 0} → MetaValue T → Option ℕ → Bytes → Option T → Type 0
Decodes meta ts bytes none = Unit
Decodes {T} meta ts bytes (some v) =
    (v0 : T) × (meta.decode bytes ≡ ok v0) × (v ≡ with_expiry meta ts v0)

Reads-some : (e : Option KeyValue) (kv : KeyValue) → Reads e (some kv) → e ≡ some kv
Reads-some none kv h = cc
Reads-some (some k) kv (inl h) = cc
Reads-some (some k) kv (inr (h, _)) = cc

read_unexpiring :
    (e : Option KeyValue) (r : Option KeyValue) (kv : KeyValue)
    → Reads e r
    → e ≡ some kv
    → kv.expire_ts ≡ none
    → r ≡ some kv
read_unexpiring none r kv h e n = cc
read_unexpiring (some x) r kv (inl h) e n = cc
read_unexpiring (some x) r kv (inr (h, k)) e n =
    absurd (k (ap (λ o. elim o [ none ↦ none | some y ↦ y.expire_ts ]) e ∙ n))

module _ {D E : Type 0} {db : Db D E} {T : Type 0} (meta : MetaValue T) where
  decoded_lem :
      (ts : Option ℕ) (bytes : Bytes) (w : World db) (r : Result DecoderError T)
      → meta.decode bytes ≡ r
      → Ensures false (λ found w'. (w' ≡ w) × Decodes meta ts bytes found) (decoded meta ts r w)
  decoded_lem ts bytes w (ok v) e = Ensures-pure (refl, (v, e, refl))
  decoded_lem ts bytes w (err x) e = record { outcome = tt }

  decode_entry_lem :
      (ts : Option ℕ) (bytes : Bytes) (w : World db)
      → Ensures false
          (λ found w'. (w' ≡ w) × Decodes meta ts bytes found)
          (decode_entry meta ts bytes w)
  decode_entry_lem ts [] w = Ensures-pure (refl, tt)
  decode_entry_lem ts (c ∷ s) w = elim (Bool-cases (is_type_match meta.kind c)) [
    | inl e ↦ rw e (decoded_lem ts (c ∷ s) w _ refl)
    | inr e ↦ rw e (record { outcome = tt })
  ]

  -- The metadata that a lookup found: what the entry of the key stands for.
  abbrev pub Seen : Bytes → World db → Option T → World db → Type 0
  Seen key w none w' = Unit
  Seen key w (some v) w' =
      (w'.string_db ≡ w.string_db)
      × ((kv : KeyValue) × (v0 : T) × (entry DataType.string w (meta_key key) ≡ some kv)
          × (meta.decode kv.value ≡ ok v0)
          × (v ≡ with_expiry meta kv.expire_ts v0))

  -- What a lookup does: an expired entry may go.
  pub record Looked (key : Bytes) (w : World db) (found : Option T) (w' : World db) : Type 0 where
    pub elsewhere : (s : DataType) → same_type s DataType.string ≡ false → db_of s w' ≡ db_of s w
    pub others :
        (j : Bytes)
        → same_bytes j (meta_key key) ≡ false
        → entry DataType.string w' j ≡ entry DataType.string w j
    pub at_key :
        (entry DataType.string w' (meta_key key) ≡ none)
        ⊎ (entry DataType.string w' (meta_key key) ≡ entry DataType.string w (meta_key key))
    pub seen : Seen key w found w'

  unchanged : (key : Bytes) (w : World db) → Looked key w none w
  unchanged key w = record {
    elsewhere = λ s h. refl;
    others = λ j h. refl;
    at_key = inr refl;
    seen = tt;
  }

  pub db_of_later :
      (s : DataType) (w : World db) (n : ℕ) → db_of s (record w { ticks = n }) ≡ db_of s w
  db_of_later DataType.string w n = refl
  db_of_later DataType.hash w n = refl
  db_of_later DataType.set w n = refl
  db_of_later DataType.list w n = refl
  db_of_later DataType.zset w n = refl

  later-Seen :
      (key : Bytes) (w : World db) (n : ℕ) (found : Option T) (w' : World db)
      → Seen key (record w { ticks = n }) found w'
      → Seen key w found w'
  later-Seen key w n none w' h = tt
  later-Seen key w n (some v) w' h = h

  -- The same with the clock read.
  later :
      (key : Bytes) (w : World db) (n : ℕ) (found : Option T) (w' : World db)
      → Looked key (record w { ticks = n }) found w'
      → Looked key w found w'
  later key w n found w' l = record {
    elsewhere = λ s h. l.elsewhere s h ∙ db_of_later s w n;
    others = l.others;
    at_key = l.at_key;
    seen = later-Seen key w n found w' l.seen;
  }

  decoded_Seen :
      (key : Bytes) (kv : KeyValue) (w : World db) (found : Option T)
      → entry DataType.string w (meta_key key) ≡ some kv
      → Decodes meta kv.expire_ts kv.value found
      → Looked key w found w
  decoded_Seen key kv w none e d = unchanged key w
  decoded_Seen key kv w (some v) e (v0, h, k) = record {
    elsewhere = λ s h. refl;
    others = λ j h. refl;
    at_key = inr refl;
    seen = (refl, (kv, v0, e, h, k));
  }

  live_entry :
      (key : Bytes) (kv : KeyValue) (w : World db)
      → entry DataType.string w (meta_key key) ≡ some kv
      → Ensures false (Looked key w) (decode_entry meta kv.expire_ts kv.value w)
  live_entry key kv w e =
      Ensures-mono (decode_entry_lem kv.expire_ts kv.value w) λ found w' (same, d).
        subst (Looked key w found) (sym same) (decoded_Seen key kv w found e d)

  judge_expired :
      (key : Bytes) (kv : KeyValue) (w : World db) (b : Bool)
      → entry DataType.string w (meta_key key) ≡ some kv
      → Ensures false (Looked key w) (
          (if b
              then delete_entry DataType.string (meta_key key) >>= (λ _. pure none)
              else decode_entry meta kv.expire_ts kv.value)
            w)
  judge_expired key kv w true e =
      Ensures-bind (delete_entry DataType.string (meta_key key)) (λ _. pure none) w
        (delete_entry_lem DataType.string (meta_key key) w)
        λ _ w' c.
          Ensures-pure
            (record { elsewhere = c.elsewhere; others = c.others; at_key = inl c.there; seen = tt })
  judge_expired key kv w false e = live_entry key kv w e

  judge_entry_lem :
      (key : Bytes) (w : World db) (r : Option KeyValue)
      → Reads (entry DataType.string w (meta_key key)) r
      → Ensures false (Looked key w) (judge_entry meta key r w)
  judge_entry_lem key w none h = Ensures-pure (unchanged key w)
  judge_entry_lem key w (some kv) h =
      let e = Reads-some _ kv h in
      Ensures-bind (is_expired kv.expire_ts) _ w (is_expired_lem kv.expire_ts w) λ b w' (n, same).
        subst
          (λ u. Ensures false (Looked key w) (
            (if b
                then delete_entry DataType.string (meta_key key) >>= (λ _. pure none)
                else decode_entry meta kv.expire_ts kv.value)
              u))
          (sym same)
          (Ensures-mono (judge_expired key kv (record w { ticks = n }) b e) (later key w n))

  -- A lookup of metadata, whatever it finds.
  pub get_meta_lem :
      (key : Bytes) (w : World db) → Ensures false (Looked key w) (get_meta meta key w)
  unfolding get_meta
  get_meta_lem key w =
      Ensures-bind (read_entry DataType.string (meta_key key)) (judge_entry meta key) w
        (read_entry_lem DataType.string (meta_key key) w)
        λ r w' (same, reads).
          subst (λ u. Ensures false (Looked key w) (judge_entry meta key r u)) (sym same)
            (judge_entry_lem key w r reads)

  -- Metadata that does not expire is looked up and decoded.
  pub get_meta_live :
      {strict : Bool} {P : Option T → World db → Type 0} (key : Bytes) (kv : KeyValue)
      (w : World db)
      → entry DataType.string w (meta_key key) ≡ some kv
      → kv.expire_ts ≡ none
      → Ensures strict P (decode_entry meta none kv.value w)
      → Ensures strict P (get_meta meta key w)
  unfolding get_meta is_expired
  get_meta_live {strict} {P} key kv w e n h =
      Ensures-bind (read_entry DataType.string (meta_key key)) (judge_entry meta key) w
        (read_entry_lem DataType.string (meta_key key) w)
        λ r w' (same, reads). rw (same, read_unexpiring _ r kv reads e n, n) h

  -- The entry of the metadata of `key` has the value `bytes` now.
  pub record Stored (key bytes : Bytes) (w w' : World db) : Type 0 where
    pub there :
        (kv : KeyValue) × (entry DataType.string w' (meta_key key) ≡ some kv) × (kv.value ≡ bytes)
    pub others :
        (j : Bytes)
        → same_bytes j (meta_key key) ≡ false
        → entry DataType.string w' j ≡ entry DataType.string w j
    pub elsewhere : (s : DataType) → same_type s DataType.string ≡ false → db_of s w' ≡ db_of s w

  pub Put-Stored :
      (key bytes : Bytes) (ttl : Ttl) (n : ℕ) (w w' : World db)
      → Put DataType.string (meta_key key) bytes ttl n w w'
      → Stored key bytes w w'
  Put-Stored key bytes ttl n w w' put = record {
    there = (_, put.change.there, refl);
    others = put.change.others;
    elsewhere = put.change.elsewhere;
  }

  Stored-later :
      (key bytes : Bytes) (n : ℕ) (w w' : World db)
      → Stored key bytes (record w { ticks = n }) w'
      → Stored key bytes w w'
  Stored-later key bytes n w w' s = record {
    there = s.there;
    others = s.others;
    elsewhere = λ t h. s.elsewhere t h ∙ db_of_later t w n;
  }

  meta_put_opts_lem :
      {strict : Bool} (v : T) (w : World db)
      → Ensures strict (λ ttl w'. (n : ℕ) × (w' ≡ record w { ticks = n })) (meta_put_opts meta v w)
  unfolding meta_put_opts read_clock
  meta_put_opts_lem v w = elim (Bool-cases (meta.expire_time v == 0)) [
    | inl e ↦ rw e (Ensures-pure (w.ticks, refl))
    | inr e ↦ rw e (Ensures-pure (suc w.ticks, refl))
  ]

  -- A put of metadata.
  pub put_meta_lem :
      {strict : Bool} (key : Bytes) (v : T) (w : World db)
      → Ensures strict (λ n w'. Stored key (meta.encode v) w w') (put_meta meta key v w)
  unfolding put_meta
  put_meta_lem key v w =
      Ensures-bind (meta_put_opts meta v) (put_entry DataType.string (meta_key key) (meta.encode v))
        w (meta_put_opts_lem v w)
        λ ttl w1 (n, same). rw same (
          Ensures-mono
            (put_entry_lem DataType.string (meta_key key) (meta.encode v) ttl
              (record w { ticks = n }))
            λ seq w' put.
              Stored-later key (meta.encode v) n w w'
                (Put-Stored key (meta.encode v) ttl seq _ w' put))
