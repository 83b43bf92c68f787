-- ===== src/Storage/Zsets/Reads.antt =====
-- The reads of `zadd` of nimbis-storage/src/storage_zset.rs.
use nimbis.Prelude.{
  ℕ, ◌≡◌, refl, ap, Bool, true, false, Bytes, List, [], ◌∷◌, Option, none, some, inl, inr,
  Bool-cases,
}
use nimbis.Resp.Types.{F64}
use nimbis.Resp.Utils.{same_bytes}
use nimbis.Storage.BytesEq.{eq_of_same_bytes}
use nimbis.Storage.DataType.{DataType}
use nimbis.Storage.Database.{Db, KeyValue}
use nimbis.Storage.Elements.{current_value}
use nimbis.Storage.Engine.{World, Action, pure, ◌>>=◌, read_entry}
use nimbis.Storage.Engine.Rules.{Ensures, Ensures-pure, Ensures-bind}
use nimbis.Storage.Engine.Entries.{entry, read_entry_lem}
use nimbis.Storage.Zsets.{
  Element, names, score_of, zset_member_key, no_scores, old_scores, read_scores,
}
use nimbis.Storage.Zsets.Batch.{old_of, named}
use nimbis.Storage.Zsets.Scores.{Was, read_Was}

module _ {D E : Type 0} {db : Db D E} (key : Bytes) where
  -- The elements `es` were looked up: the scores to give, and what was found under each member.
  pub record Read (es : List Element) (w : World db) (olds : List (Element × Option Bytes))
      : Type 0 where
    pub named_same : named olds ≡ names es
    pub found :
        (m : Bytes) (s : F64)
        → score_of m es ≡ some s
        → (old : Option Bytes) × (old_of m olds ≡ some (s, old))
          × Was old (entry DataType.zset w (zset_member_key key m))

  Read-nil : (w : World db) → Read [] w []
  Read-nil w = record { named_same = refl; found = λ m s h. cc h }

  Read-cons :
      (t : F64) (name : Bytes) (old : Option Bytes) (es : List Element) (w : World db)
      (olds : List (Element × Option Bytes))
      → Was old (entry DataType.zset w (zset_member_key key name))
      → Read es w olds
      → Read ((t, name) ∷ es) w (((t, name), old) ∷ olds)
  Read-cons t name old es w olds was r = record {
    named_same = ap (λ l. name ∷ l) r.named_same;
    found = λ m s h. elim (Bool-cases (same_bytes m name)) [
      | inl k ↦
          let h' : some t ≡ some s = rw k at h in
          let same : t ≡ s = cc h' in rw (k, same, eq_of_same_bytes m name k) (old, refl, was)
      | inr k ↦ rw k (r.found m s (rw k at h))
    ];
  }

  no_scores_lem : (es : List Element) (w : World db) → Read es w (no_scores es)
  no_scores_lem [] w = Read-nil w
  no_scores_lem ((t, name) ∷ es) w = Read-cons t name none es w _ tt (no_scores_lem es w)

  abbrev first_read :
      ℕ → Element → List Element → Option KeyValue → Action db (List (Element × Option Bytes))
  first_read version e es kv = do
    rest ← read_scores key version (λ (e : Element). e.1) es
    pure ((e, current_value version kv) ∷ rest)

  read_scores_lem :
      (version : ℕ) (es : List Element) (w : World db)
      → Ensures false
          (λ olds w'. (w' ≡ w) × Read es w olds)
          (read_scores key version (λ (e : Element). e.1) es w)
  unfolding read_scores
  read_scores_lem version [] w = Ensures-pure (refl, Read-nil w)
  read_scores_lem version ((t, name) ∷ es) w =
      let k = zset_member_key key name in
      Ensures-bind (read_entry DataType.zset k) (first_read version (t, name) es) w
        (read_entry_lem DataType.zset k w)
        λ kv w1 (same, reads). rw same (
          Ensures-bind (read_scores key version (λ (e : Element). e.1) es)
            (λ rest. pure (((t, name), current_value version kv) ∷ rest)) w
            (read_scores_lem version es w)
            λ olds w2 (same2, r). Ensures-pure (
              same2,
              Read-cons t name (current_value version kv) es w olds
                  (read_Was version (entry DataType.zset w k) kv reads) r,
            ))

  pub old_scores_lem :
      (missing : Bool) (version : ℕ) (es : List Element) (w : World db)
      → Ensures false (λ olds w'. (w' ≡ w) × Read es w olds) (old_scores key missing version es w)
  old_scores_lem true version es w = Ensures-pure (refl, no_scores_lem es w)
  old_scores_lem false version es w = read_scores_lem version es w
