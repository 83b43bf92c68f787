-- ===== src/Storage/Zsets/Scored.antt =====
-- What `zadd` of nimbis-storage/src/storage_zset.rs leaves.
use nimbis.Prelude.{
  ℕ, ◌≡◌, ◌∙◌, refl, ap, Bool, true, false, ◌&&◌, ltb, Bytes, List, [], Option, none, some, inl,
  inr, Bool-cases, All,
}
use nimbis.Resp.Types.{F64}
use nimbis.Storage.DataType.{DataType}
use nimbis.Storage.Compaction.{same_type}
use nimbis.Storage.Meta.{ZsetMetaValue}
use nimbis.Storage.Database.{Db, KeyValue, after_batch}
use nimbis.Storage.Elements.{AreDistinct}
use nimbis.Storage.Engine.{World, Action, pure, ◌>>=◌, get_meta, zset_meta, read_entry, put_meta}
use nimbis.Storage.Engine.Rules.{Ensures, Ensures-pure, Ensures-bind, Ensures-mono}
use nimbis.Storage.Engine.Entries.{entry, read_entry_lem, write_batch_lem}
use nimbis.Storage.Engine.Lookup.{get_meta_lem, put_meta_lem}
use nimbis.Storage.Zsets.{
  Element, names, MapOrder, last_scores, score_of, zset_member_key, Adding, nothing_added,
  add_elements, old_scores, write_if, zset_version, put_zset, zset_grown, version_read,
  first_version, finish_zadd, zadd_to, zadd, new_zset,
}
use nimbis.Storage.Zsets.Batch.{
  last_scores-AreDistinct, add_elements-named, add_elements-other, HasAll, add_elements-HasAll,
}
use nimbis.Storage.Zsets.Scores.{
  HasScore, IsNumber, ScoresAreNumbers, last_scores-AreNumbers, with_score-HasScore, last_score_of,
  last_given, has-names,
}
use nimbis.Storage.Zsets.Reads.{Read, old_scores_lem}

module _ {D E : Type 0} {db : Db D E} (key : Bytes) where
  -- Each member that is given a score has it, and the others keep their entries.
  pub record Scored (given : Bytes → Option F64) (w w' : World db) : Type 0 where
    pub at_given :
        (m : Bytes) (s : F64)
        → given m ≡ some s
        → HasScore s (entry DataType.zset w' (zset_member_key key m))
    pub at_others :
        (m : Bytes)
        → given m ≡ none
        → entry DataType.zset w' (zset_member_key key m)
          ≡ entry DataType.zset w (zset_member_key key m)

  write_if_lem :
      (st : Adding) (w : World db)
      → HasAll st
      → Ensures false
          (λ _ w'.
            (n : ℕ) × ((j : Bytes)
              → entry DataType.zset w' j ≡ after_batch st.batch n j (entry DataType.zset w j)))
          (write_if st.has_writes st.batch w)
  write_if_lem st w all = elim (Bool-cases st.has_writes) [
    | inl k ↦ rw k (
        Ensures-mono (write_batch_lem DataType.zset st.batch w)
          λ _ w' (n, written). (n, written.after))
    | inr k ↦ rw (k, all k) (Ensures-pure (0, λ j. refl))
  ]

  zset_version_lem :
      (missing : Bool) (m : ZsetMetaValue) (st : Adding) (w : World db)
      → Ensures false (λ _ w'. w' ≡ w) (zset_version missing m st w)
  zset_version_lem missing m st w = elim (Bool-cases (missing && ltb 0 st.added_count)) [
    | inl k ↦ rw k (read_version st.first_new_member_key)
    | inr k ↦ rw k (Ensures-pure refl)
  ]
    where
      version_read_lem :
          (kv : Option KeyValue) (w1 : World db)
          → w1 ≡ w
          → Ensures false (λ _ w'. w' ≡ w) (version_read m kv w1)
      version_read_lem none w1 h = record { outcome = tt }
      version_read_lem (some kv) w1 h = Ensures-pure h

      read_version : (k : Option Bytes) → Ensures false (λ _ w'. w' ≡ w) (first_version m k w)
      read_version none = record { outcome = tt }
      read_version (some k) =
          Ensures-bind (read_entry DataType.zset k) (version_read m) w
            (read_entry_lem DataType.zset k w) λ kv w1 (same, _). version_read_lem kv w1 same

  put_zset_lem :
      (m : ZsetMetaValue) (added : ℕ) (w : World db)
      → Ensures false
          (λ _ w'. (j : Bytes) → entry DataType.zset w' j ≡ entry DataType.zset w j)
          (put_zset key m added w)
  unfolding same_type
  put_zset_lem m added w = elim (Bool-cases (ltb 0 added)) [
    | inl k ↦ rw k (
        Ensures-bind (put_meta zset_meta key (zset_grown m added)) (λ _. pure added) w
          (put_meta_lem zset_meta key (zset_grown m added) w)
          λ _ w1 st. Ensures-pure λ j. ap (λ d. db.view d j) (st.elsewhere DataType.zset refl))
    | inr k ↦ rw k (Ensures-pure λ j. refl)
  ]

  -- What a batch of the loop leaves of the members.
  batch-Scored :
      (es : List Element) (olds : List (Element × Option Bytes)) (n : ℕ) (w w1 w2 : World db)
      → AreDistinct (names es)
      → ScoresAreNumbers es
      → Read key es w olds
      → ((j : Bytes)
          → entry DataType.zset w1 j
            ≡ after_batch (add_elements key olds nothing_added).batch n j (entry DataType.zset w j))
      → ((j : Bytes) → entry DataType.zset w2 j ≡ entry DataType.zset w1 j)
      → Scored (λ x. score_of x es) w w2
  batch-Scored es olds n w w1 w2 distinct numbers r after same = record {
    at_given = λ m s h.
        let (old, place, was) = r.found m s h in
        let (bound, number) = numbers m s h in
        let k = zset_member_key key m in
        rw
          (
            same k,
            after k,
            add_elements-named key m olds nothing_added n (entry DataType.zset w k) s old
                (rw r.named_same distinct) place,
          )
          (with_score-HasScore n s old (entry DataType.zset w k) bound number was);
    at_others = λ m h.
        let k = zset_member_key key m in
        same k
        ∙ after k
        ∙ add_elements-other key m olds nothing_added n (entry DataType.zset w k)
            (rw r.named_same (has-names m es h));
  }

  zadd_to-Scored :
      ⦃o : MapOrder⦄ (elements : List Element) (missing : Bool) (m : ZsetMetaValue) (w : World db)
      → All (λ (e : Element). IsNumber e.0) elements
      → Ensures false
          (λ _ w'. Scored (λ x. score_of x (o.iterate (last_scores [] elements))) w w')
          (zadd_to key elements missing m w)
  zadd_to-Scored ⦃o⦄ elements missing m w all_numbers =
      let es = o.iterate (last_scores [] elements) in
      Ensures-bind (old_scores key missing m.version es)
        (λ olds. finish_zadd key missing m (add_elements key olds nothing_added)) w
        (old_scores_lem key missing m.version es w)
        λ olds w1 (same, r). rw same (
          finish (add_elements key olds nothing_added) olds r
            (add_elements-HasAll key olds nothing_added λ _. refl) refl)
    where
      finish :
          (st : Adding) (olds : List (Element × Option Bytes))
          → Read key (o.iterate (last_scores [] elements)) w olds
          → HasAll st
          → add_elements key olds nothing_added ≡ st
          → Ensures false
              (λ _ w'. Scored (λ x. score_of x (o.iterate (last_scores [] elements))) w w')
              (finish_zadd key missing m st w)
      finish st olds r all e =
          Ensures-bind (write_if st.has_writes st.batch)
            (λ _. zset_version missing m st >>= (λ m'. put_zset key m' st.added_count)) w
            (write_if_lem st w all)
            λ _ w1 (n, after).
              Ensures-bind (zset_version missing m st) (λ m'. put_zset key m' st.added_count) w1
                (zset_version_lem missing m st w1)
                λ m' w2 same. rw same (
                  Ensures-mono (put_zset_lem m' st.added_count w1) λ _ w3 kept.
                    batch-Scored _ olds n w w1 w3
                      (o.iterate-distinct _ (last_scores-AreDistinct [] elements tt))
                      (last_scores-AreNumbers elements all_numbers) r (rw e after) kept)

  Scored-same :
      (given given' : Bytes → Option F64) (w0 w w' : World db)
      → ((x : Bytes) → given x ≡ given' x)
      → ((j : Bytes) → entry DataType.zset w j ≡ entry DataType.zset w0 j)
      → Scored given w w'
      → Scored given' w0 w'
  Scored-same given given' w0 w w' same kept sc = record {
    at_given = λ m s h. sc.at_given m s (same m ∙ h);
    at_others = λ m h. sc.at_others m (same m ∙ h) ∙ kept (zset_member_key key m);
  }

  abbrev rest_of_zadd : ⦃o : MapOrder⦄ → List Element → Option ZsetMetaValue → Action db ℕ
  rest_of_zadd elements found = elim found [
    | none ↦ zadd_to key elements true new_zset
    | some m ↦ zadd_to key elements false m
  ]

  rest_of_zadd-Scored :
      ⦃o : MapOrder⦄ (elements : List Element) (found : Option ZsetMetaValue) (w : World db)
      → All (λ (e : Element). IsNumber e.0) elements
      → Ensures false
          (λ _ w'. Scored (λ x. score_of x (o.iterate (last_scores [] elements))) w w')
          (rest_of_zadd elements found w)
  rest_of_zadd-Scored elements none w numbers = zadd_to-Scored elements true new_zset w numbers
  rest_of_zadd-Scored elements (some m) w numbers = zadd_to-Scored elements false m w numbers

  -- When zadd ends without an error, each member that it names has an entry with a score that is equal to
  -- the last one given with that member, and the entries of all other members of the sorted set are as
  -- before. A member may be named many times, and the scores are floats of 64 bits and no NaN.
  pub zadd-Scored :
      ⦃o : MapOrder⦄ (elements : List Element) (w : World db)
      → All (λ (e : Element). IsNumber e.0) elements
      → Ensures false (λ _ w'. Scored (λ x. last_score_of x elements) w w') (zadd key elements w)
  unfolding zadd same_type
  zadd-Scored ⦃o⦄ elements w numbers =
      Ensures-bind (get_meta zset_meta key) (rest_of_zadd elements) w (get_meta_lem zset_meta key w)
        λ found w1 l. Ensures-mono (rest_of_zadd-Scored elements found w1 numbers) λ _ w2 sc.
          Scored-same (λ x. score_of x (o.iterate (last_scores [] elements)))
            (λ x. last_score_of x elements) w w1 w2 (last_given elements)
            (λ j. ap (λ d. db.view d j) (l.elsewhere DataType.zset refl)) sc
