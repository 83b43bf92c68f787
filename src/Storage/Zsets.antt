-- ===== src/Storage/Zsets.antt =====
-- nimbis-storage/src/storage_zset.rs: the operations on sorted sets. Reads that the source starts together
-- are done one after the other.
pub mod Batch
pub mod Scores
pub mod Reads
pub mod Scored
use nimbis.Prelude.{
  ℕ, suc, ◌+◌, ◌-◌, ◌%◌, ◌^◌, ◌≡◌, Bool, true, false, not, ◌&&◌, ◌||◌, Bytes, List, [], ◌∷◌, ◌++◌,
  ltb, ◌==◌, length, drop, if◌then◌else◌, Option, none, some,
}
use nimbis.Prelude.Int.{ℤ, pos, ltb_ℤ, ◌+ℤ◌}
use nimbis.Resp.Types.{F64, eq_f64}
use nimbis.Resp.External.{External}
use nimbis.Resp.Utils.{same_bytes}
use nimbis.Storage.BigEndian.{be_bytes, get_be}
use nimbis.Storage.DataType.{DataType}
use nimbis.Storage.Score.{encode_score, decode_score}
use nimbis.Storage.Keys.{encode_member_key, encode_score_key, zset_score_user_key_prefix}
use nimbis.Storage.Keys.Prefix.{starts_with}
use nimbis.Storage.Meta.{ZsetMetaValue, zset_meta_with_ttl}
use nimbis.Storage.Database.{Db, KeyValue, BatchOp, batch_put, batch_delete}
use nimbis.Storage.Elements.{current_value, AreDistinct}
use nimbis.Storage.Lists.{to_i64, from_end}
use nimbis.Storage.Engine.{
  Action, pure, raise, ◌>>=◌, ◌>>◌, data_inconsistency, read_entry, delete_entry, write_batch,
  scan_from, get_meta, put_meta, zset_meta, meta_key,
}

-- A score and its member.
abbrev pub Element : Type 0
Element = F64 × Bytes

abbrev pub score_of : Bytes → List Element → Option F64
score_of member [] = none
score_of member ((score, name) ∷ es) =
    if same_bytes member name then some score else score_of member es

abbrev pub names : List Element → List Bytes
names [] = []
names (e ∷ es) = e.1 ∷ names es

-- `HashMap::into_iter`: the entries, each once, in some order.
pub record MapOrder : Type 0 where
  pub iterate : List Element → List Element
  pub iterate-distinct :
      (es : List Element) → AreDistinct (names es) → AreDistinct (names (iterate es))
  pub score_of-iterate :
      (member : Bytes) (es : List Element) → score_of member (iterate es) ≡ score_of member es

abbrev pub zset_member_key : Bytes → Bytes → Bytes
zset_member_key key member = encode_member_key (record { user_key = key; member = member })

abbrev pub zset_score_key : Bytes → F64 → Bytes → Bytes
zset_score_key key score member =
    encode_score_key (record { user_key = key; score = score; member = member })

-- `HashMap::insert`: the score of a member that is there is replaced.
unfoldable pub insert_score : List Element → Element → List Element
insert_score [] e = e ∷ []
insert_score ((old, name) ∷ es) (score, member) =
    let rest = insert_score es (score, member) in
    if same_bytes member name then (score, name) ∷ es else (old, name) ∷ rest

-- The loop that keeps the last score of each member.
unfoldable pub last_scores : List Element → List Element → List Element
unfolding insert_score
last_scores unique [] = unique
last_scores unique (e ∷ es) = last_scores (insert_score unique e) es

-- A score is stored in 8 bytes. A shorter value, which no operation writes, makes the slice panic.
abbrev pub stored_score : Bytes → F64
stored_score value = decode_score (get_be 8 value)

abbrev pub score_bytes : F64 → Bytes
score_bytes score = be_bytes 8 (encode_score score)

-- The variables of the loop of `zadd`.
pub record Adding : Type 0 where
  pub batch : List BatchOp
  pub added_count : ℕ
  pub first_new_member_key : Option Bytes
  pub has_writes : Bool

abbrev pub nothing_added : Adding
nothing_added = record {
  batch = [];
  added_count = 0;
  first_new_member_key = none;
  has_writes = false;
}

abbrev pub or_key : Option Bytes → Bytes → Option Bytes
or_key none k = some k
or_key (some j) k = some j

-- A member that is there gets another score.
abbrev pub update_member : Bytes → Element → F64 → Adding → Adding
update_member key (score, member) old_score st = if eq_f64 old_score score then st else record st {
  has_writes = true;
  batch =
      st.batch
      ++ (batch_delete (zset_score_key key old_score member)
          ∷ batch_put (zset_score_key key score member) []
          ∷ batch_put (zset_member_key key member) (score_bytes score)
          ∷ []);
}

abbrev pub add_member : Bytes → Element → Adding → Adding
add_member key (score, member) st = record st {
  has_writes = true;
  added_count = suc st.added_count;
  first_new_member_key = or_key st.first_new_member_key (zset_member_key key member);
  batch =
      st.batch
      ++ (batch_put (zset_member_key key member) (score_bytes score)
          ∷ batch_put (zset_score_key key score member) []
          ∷ []);
}

-- The loop of `zadd` over the elements with the value that each has in the database.
unfoldable pub add_elements : Bytes → List (Element × Option Bytes) → Adding → Adding
unfolding decode_score
add_elements key [] st = st
add_elements key ((e, none) ∷ es) st = add_elements key es (add_member key e st)
add_elements key ((e, some old) ∷ es) st =
    add_elements key es (update_member key e (stored_score old) st)

abbrev pub new_zset : ZsetMetaValue
new_zset = zset_meta_with_ttl 0 0 0

-- `len += n`, with the wrap-around of `u64`.
abbrev pub zset_grown : ZsetMetaValue → ℕ → ZsetMetaValue
zset_grown m n = record m { len = (m.len + n) % 2 ^ 64 }

-- `len -= n`, with the wrap-around of `u64`.
abbrev pub zset_shrunk : ZsetMetaValue → ℕ → ZsetMetaValue
zset_shrunk m n = record m { len = if ltb m.len n then m.len + 2 ^ 64 - n else m.len - n }

-- The loop of `zrem` over the members with the value that each has in the database.
unfoldable pub remove_members :
    Bytes → List (Bytes × Option Bytes) → List BatchOp → ℕ → List BatchOp × ℕ
unfolding decode_score
remove_members key [] batch removed = (batch, removed)
remove_members key ((member, none) ∷ ms) batch removed = remove_members key ms batch removed
remove_members key ((member, some old) ∷ ms) batch removed =
    remove_members key ms
      (batch
        ++ (batch_delete (zset_member_key key member)
            ∷ batch_delete (zset_score_key key (stored_score old) member)
            ∷ []))
      (suc removed)

-- What a score key gives for a reply: its member, and the score if it is asked for.
abbrev pub range_row : ⦃x : External⦄ → Bytes → Bool → Bytes → List Bytes
range_row ⦃x⦄ prefix with_scores k =
    let member = drop (length prefix + 8) k in
    if ltb (length prefix + 8) (length k)
    then (if with_scores
        then member ∷ x.show_f64 (stored_score (drop (length prefix) k)) ∷ []
        else member ∷ [])
    else []

-- The loop of `zrange` from the entry with the index `idx` on: it ends at the first key without the
-- prefix, and behind the last index.
unfoldable pub collect_range :
    ⦃x : External⦄ → Bytes → ℕ → ℤ → ℤ → Bool → ℕ → List (Bytes × KeyValue) → List Bytes
unfolding decode_score
collect_range prefix version start stop with_scores idx [] = []
collect_range prefix version start stop with_scores idx ((k, kv) ∷ es) =
    let rest = collect_range prefix version start stop with_scores (suc idx) es in
    let skipped = collect_range prefix version start stop with_scores idx es in
    let after_end = ltb_ℤ stop (pos idx) in
    let row =
      if not (ltb_ℤ (pos idx) start) && not after_end then range_row prefix with_scores k else [] in
    if not (starts_with prefix k)
    then []
    else if ltb kv.seq version
    then skipped
    else if after_end
    then row
    else row ++ rest

-- The test on the indices after they were counted from the start.
abbrev pub is_empty_range : ℤ → ℤ → ℤ → Bool
is_empty_range len start stop = ltb_ℤ start (pos 0) || not (ltb_ℤ start len) || ltb_ℤ stop start

-- With missing metadata, no member is looked up.
abbrev pub no_scores : List Element → List (Element × Option Bytes)
no_scores [] = []
no_scores (e ∷ es) = (e, none) ∷ no_scores es

abbrev pub score_found : Option Bytes → Option F64
score_found none = none
score_found (some value) = some (stored_score value)

module _ {D E : Type 0} {db : Db D E} where
  -- The value of each member that is there.
  unfoldable pub read_scores :
      {A : Type 0} → Bytes → ℕ → (A → Bytes) → List A → Action db (List (A × Option Bytes))
  read_scores key version name [] = pure []
  read_scores key version name (a ∷ more) = do
    kv ← read_entry DataType.zset (zset_member_key key (name a))
    rest ← read_scores key version name more
    pure ((a, current_value version kv) ∷ rest)

  abbrev pub old_scores :
      Bytes → Bool → ℕ → List Element → Action db (List (Element × Option Bytes))
  old_scores key true version es = pure (no_scores es)
  old_scores key false version es = read_scores key version (λ (e : Element). e.1) es

  abbrev pub write_if : Bool → List BatchOp → Action db (Unit {0})
  write_if has_writes ops = if has_writes then write_batch DataType.zset ops else pure tt

  abbrev pub version_read : ZsetMetaValue → Option KeyValue → Action db ZsetMetaValue
  version_read m none = raise data_inconsistency
  version_read m (some kv) = pure (record m { version = kv.seq })

  abbrev pub first_version : ZsetMetaValue → Option Bytes → Action db ZsetMetaValue
  first_version m none = raise data_inconsistency
  first_version m (some k) = read_entry DataType.zset k >>= version_read m

  -- The version of a new sorted set is the sequence number of its first member.
  abbrev pub zset_version : Bool → ZsetMetaValue → Adding → Action db ZsetMetaValue
  zset_version missing m st =
      if missing && ltb 0 st.added_count then first_version m st.first_new_member_key else pure m

  abbrev pub put_zset : Bytes → ZsetMetaValue → ℕ → Action db ℕ
  put_zset key m added =
      if ltb 0 added
      then (do put_meta zset_meta key (zset_grown m added); pure added)
      else pure added

  -- From the write of the batch on.
  abbrev pub finish_zadd : Bytes → Bool → ZsetMetaValue → Adding → Action db ℕ
  finish_zadd key missing m st = do
    write_if st.has_writes st.batch
    m' ← zset_version missing m st
    put_zset key m' st.added_count

  abbrev pub zadd_to : ⦃o : MapOrder⦄ → Bytes → List Element → Bool → ZsetMetaValue → Action db ℕ
  zadd_to ⦃o⦄ key elements missing m = do
    olds ← old_scores key missing m.version (o.iterate (last_scores [] elements))
    finish_zadd key missing m (add_elements key olds nothing_added)

  unfoldable pub zadd : ⦃o : MapOrder⦄ → Bytes → List Element → Action db ℕ
  unfolding last_scores add_elements read_scores
  zadd key elements = do
    found ← get_meta zset_meta key
    elim found [ none ↦ zadd_to key elements true new_zset | some m ↦ zadd_to key elements false m ]

  abbrev pub scan_range : ⦃x : External⦄ → Bytes → ℕ → ℤ → ℤ → ℤ → Bool → Action db (List Bytes)
  scan_range key version len start stop with_scores =
      if is_empty_range len start stop then pure [] else (do
        es ← scan_from DataType.zset (zset_score_user_key_prefix key)
        pure (collect_range (zset_score_user_key_prefix key) version start stop with_scores 0 es))

  unfoldable pub zrange : ⦃x : External⦄ → Bytes → ℤ → ℤ → Bool → Action db (List Bytes)
  unfolding collect_range ◌+ℤ◌
  zrange key start stop with_scores = do
    found ← get_meta zset_meta key
    elim found [
      | none ↦ pure []
      | some m ↦
          scan_range key m.version (to_i64 m.len) (from_end (to_i64 m.len) start)
            (from_end (to_i64 m.len) stop) with_scores
    ]

  unfoldable pub zscore : Bytes → Bytes → Action db (Option F64)
  unfolding decode_score
  zscore key member = do
    found ← get_meta zset_meta key
    elim found [
      | none ↦ pure none
      | some m ↦ do
        kv ← read_entry DataType.zset (zset_member_key key member)
        pure (score_found (current_value m.version kv))
    ]

  -- The metadata of an empty sorted set is deleted.
  abbrev pub shrink_zset : Bytes → ZsetMetaValue → ℕ → Action db ℕ
  shrink_zset key m removed =
      if (zset_shrunk m removed).len == 0
      then (do delete_entry DataType.string (meta_key key); pure removed)
      else (do put_meta zset_meta key (zset_shrunk m removed); pure removed)

  abbrev pub finish_zrem : Bytes → ZsetMetaValue → List BatchOp × ℕ → Action db ℕ
  finish_zrem key m (batch, removed) =
      if removed == 0
      then pure 0
      else (do write_batch DataType.zset batch; shrink_zset key m removed)

  unfoldable pub zrem : Bytes → List Bytes → Action db ℕ
  unfolding remove_members read_scores
  zrem key members = do
    found ← get_meta zset_meta key
    elim found [
      | none ↦ pure 0
      | some m ↦ do
        olds ← read_scores key m.version (λ (b : Bytes). b) members
        finish_zrem key m (remove_members key olds [] 0)
    ]

  unfoldable pub zcard : Bytes → Action db ℕ
  zcard key = do found ← get_meta zset_meta key; elim found [ none ↦ pure 0 | some m ↦ pure m.len ]
