-- ===== src/Storage/Zsets/Batch.antt =====
-- The batch that the loop of `zadd` of nimbis-storage/src/storage_zset.rs collects, by the entries of members.
use nimbis.Prelude.{
  ℕ, ◌≡◌, ◌∙◌, refl, sym, ap, false, Bytes, List, [], ◌∷◌, ◌++◌, arith, drop, get_or, if◌then◌else◌,
  Option, none, some, inl, inr, Bool-cases,
}
use nimbis.Resp.Types.{F64, eq_f64}
use nimbis.Resp.Utils.{same_bytes}
use nimbis.Storage.BytesEq.{same_bytes_refl, eq_of_same_bytes, same_bytes_of_ne, ne_of_same_bytes}
use nimbis.Storage.Keys.{encode_member_key, encode_score_key}
use nimbis.Storage.Keys.Named.{named_inj, same_user_key_inj}
use nimbis.Storage.Database.{KeyValue, BatchOp, batch_put, batch_delete, after_batch}
use nimbis.Storage.Elements.{has, AreDistinct}
use nimbis.Storage.Zsets.{
  Element, names, insert_score, last_scores, zset_member_key, zset_score_key, stored_score,
  score_bytes, Adding, update_member, add_member, add_elements,
}

has-insert_score :
    (x : Bytes) (es : List Element) (s : F64) (m : Bytes)
    → has x (names es) ≡ false
    → same_bytes x m ≡ false
    → has x (names (insert_score es (s, m))) ≡ false
unfolding insert_score
has-insert_score x [] s m h k = rw k refl
has-insert_score x ((old, name) ∷ es) s m h k = elim (Bool-cases (same_bytes x name)) [
  | inl e ↦ absurd (let h' = rw e at h in cc h')
  | inr e ↦
      let h' : has x (names es) ≡ false = rw e at h in
      elim (Bool-cases (same_bytes m name)) [
        | inl f ↦ rw (f, e) h'
        | inr f ↦ rw (f, e) (has-insert_score x es s m h' k)
      ]
]

insert_score-AreDistinct :
    (es : List Element) (s : F64) (m : Bytes)
    → AreDistinct (names es)
    → AreDistinct (names (insert_score es (s, m)))
unfolding insert_score
insert_score-AreDistinct [] s m h = (refl, tt)
insert_score-AreDistinct ((old, name) ∷ es) s m (new, h) = elim (Bool-cases (same_bytes m name)) [
  | inl f ↦ rw f (new, h)
  | inr f ↦
      let f' = same_bytes_of_ne name m (λ e. ne_of_same_bytes m name f (sym e)) in
      rw f (has-insert_score name es s m new f', insert_score-AreDistinct es s m h)
]

pub last_scores-AreDistinct :
    (unique es : List Element)
    → AreDistinct (names unique)
    → AreDistinct (names (last_scores unique es))
unfolding last_scores
last_scores-AreDistinct unique [] h = h
last_scores-AreDistinct unique ((s, m) ∷ es) h =
    last_scores-AreDistinct (insert_score unique (s, m)) es (insert_score-AreDistinct unique s m h)

after_batch-append :
    (a b : List BatchOp) (n : ℕ) (j : Bytes) (e : Option KeyValue)
    → after_batch (a ++ b) n j e ≡ after_batch b n j (after_batch a n j e)
after_batch-append [] b n j e = refl
after_batch-append (batch_put k v ∷ a) b n j e = after_batch-append a b n j _
after_batch-append (batch_delete k ∷ a) b n j e = after_batch-append a b n j _

member_key-apart :
    (key m : Bytes) (s : F64) (name : Bytes)
    → same_bytes (zset_member_key key m) (zset_score_key key s name) ≡ false
unfolding encode_member_key encode_score_key
member_key-apart key m s name =
    same_bytes_of_ne _ _
      λ e. let bad = same_user_key_inj key _ _ e in omega (arith, ap (λ l. get_or l 0 0) bad)

member_key-other :
    (key m name : Bytes)
    → same_bytes m name ≡ false
    → same_bytes (zset_member_key key m) (zset_member_key key name) ≡ false
unfolding encode_member_key
member_key-other key m name h =
    same_bytes_of_ne _ _
      λ e. ne_of_same_bytes m name h (named_inj m name (ap (drop 1) (same_user_key_inj key _ _ e)))

abbrev pub old_of : Bytes → List (Element × Option Bytes) → Option (F64 × Option Bytes)
old_of m [] = none
old_of m (((s, name), old) ∷ es) = if same_bytes m name then some (s, old) else old_of m es

abbrev pub named : List (Element × Option Bytes) → List Bytes
named [] = []
named (((s, name), old) ∷ es) = name ∷ named es

abbrev pub score_entry : ℕ → F64 → Option KeyValue
score_entry n s = some (record { value = score_bytes s; seq = n; expire_ts = none })

-- The entry `e` of a member after a batch with the number `n` that gives the member the score `s`; `old` is
-- the value that was found.
abbrev pub with_score : ℕ → F64 → Option Bytes → Option KeyValue → Option KeyValue
with_score n s none e = score_entry n s
with_score n s (some v) e = if eq_f64 (stored_score v) s then e else score_entry n s

-- What one round of the loop leaves of the entry of a member.
update-same :
    (key m v : Bytes) (s : F64) (st : Adding) (n : ℕ) (e : Option KeyValue)
    → after_batch (update_member key (s, m) (stored_score v) st).batch n (zset_member_key key m) e
      ≡ with_score n s (some v) (after_batch st.batch n (zset_member_key key m) e)
update-same key m v s st n e = elim (Bool-cases (eq_f64 (stored_score v) s)) [
  | inl h ↦ rw h refl
  | inr h ↦
      rw
        (
          h,
          after_batch-append st.batch _ n (zset_member_key key m) e,
          member_key-apart key m (stored_score v) m,
          member_key-apart key m s m,
          same_bytes_refl (zset_member_key key m),
        )
        refl
]

update-other :
    (key m name v : Bytes) (s : F64) (st : Adding) (n : ℕ) (e : Option KeyValue)
    → same_bytes m name ≡ false
    → after_batch
        (update_member key (s, name) (stored_score v) st).batch
        n
        (zset_member_key key m)
        e
      ≡ after_batch st.batch n (zset_member_key key m) e
update-other key m name v s st n e k = elim (Bool-cases (eq_f64 (stored_score v) s)) [
  | inl h ↦ rw h refl
  | inr h ↦
      rw
        (
          h,
          after_batch-append st.batch _ n (zset_member_key key m) e,
          member_key-apart key m (stored_score v) name,
          member_key-apart key m s name,
          member_key-other key m name k,
        )
        refl
]

add-same :
    (key m : Bytes) (s : F64) (st : Adding) (n : ℕ) (e : Option KeyValue)
    → after_batch (add_member key (s, m) st).batch n (zset_member_key key m) e ≡ score_entry n s
add-same key m s st n e =
    rw
      (
        after_batch-append st.batch _ n (zset_member_key key m) e,
        member_key-apart key m s m,
        same_bytes_refl (zset_member_key key m),
      )
      refl

add-other :
    (key m name : Bytes) (s : F64) (st : Adding) (n : ℕ) (e : Option KeyValue)
    → same_bytes m name ≡ false
    → after_batch (add_member key (s, name) st).batch n (zset_member_key key m) e
      ≡ after_batch st.batch n (zset_member_key key m) e
add-other key m name s st n e k =
    rw
      (
        after_batch-append st.batch _ n (zset_member_key key m) e,
        member_key-apart key m s name,
        member_key-other key m name k,
      )
      refl

-- Members that are not named keep their entries.
pub add_elements-other :
    (key m : Bytes) (es : List (Element × Option Bytes)) (st : Adding) (n : ℕ) (e : Option KeyValue)
    → has m (named es) ≡ false
    → after_batch (add_elements key es st).batch n (zset_member_key key m) e
      ≡ after_batch st.batch n (zset_member_key key m) e
unfolding add_elements
add_elements-other key m [] st n e h = refl
add_elements-other key m (((s, name), none) ∷ es) st n e h = elim (Bool-cases (same_bytes m name)) [
  | inl k ↦ absurd (let h' = rw k at h in cc h')
  | inr k ↦
      add_elements-other key m es (add_member key (s, name) st) n e (rw k at h)
      ∙ add-other key m name s st n e k
]
add_elements-other key m (((s, name), some v) ∷ es) st n e h =
    elim (Bool-cases (same_bytes m name)) [
      | inl k ↦ absurd (let h' = rw k at h in cc h')
      | inr k ↦
          add_elements-other key m es (update_member key (s, name) (stored_score v) st) n e
            (rw k at h)
          ∙ update-other key m name v s st n e k
    ]

abbrev found_for : F64 → Option Bytes → Option (F64 × Option Bytes)
found_for s old = some (s, old)

-- A member that is named once gets its score, unless it has one that is equal.
pub add_elements-named :
    (key m : Bytes) (es : List (Element × Option Bytes)) (st : Adding) (n : ℕ) (e : Option KeyValue)
    (s : F64) (old : Option Bytes)
    → AreDistinct (named es)
    → old_of m es ≡ some (s, old)
    → after_batch (add_elements key es st).batch n (zset_member_key key m) e
      ≡ with_score n s old (after_batch st.batch n (zset_member_key key m) e)
unfolding add_elements
add_elements-named key m [] st n e s old d h = cc h
add_elements-named key m (((t, name), none) ∷ es) st n e s old (new, d) h =
    elim (Bool-cases (same_bytes m name)) [
      | inl k ↦
          let h' : found_for t none ≡ some (s, old) = rw k at h in
          let (same_t, same_old) : (t ≡ s) × (none ≡ old) = (cc h', cc h') in
          let same_name = eq_of_same_bytes m name k in
          rw (sym same_old, sym same_t, same_name)
            (add_elements-other key name es (add_member key (t, name) st) n e new
              ∙ add-same key name t st n e)
      | inr k ↦
          rw (add_elements-named key m es (add_member key (t, name) st) n e s old d (rw k at h))
            (ap (with_score n s old) (add-other key m name t st n e k))
    ]
add_elements-named key m (((t, name), some v) ∷ es) st n e s old (new, d) h =
    elim (Bool-cases (same_bytes m name)) [
      | inl k ↦
          let h' : some (t, some v) ≡ some (s, old) = rw k at h in
          let (same_t, same_old) : (t ≡ s) × (some v ≡ old) = (cc h', cc h') in
          let same_name = eq_of_same_bytes m name k in
          rw (sym same_old, sym same_t, same_name)
            (add_elements-other key name es (update_member key (t, name) (stored_score v) st) n e
                new
              ∙ update-same key name v t st n e)
      | inr k ↦
          rw
            (add_elements-named key m es (update_member key (t, name) (stored_score v) st) n e s old
              d (rw k at h))
            (ap (with_score n s old) (update-other key m name v t st n e k))
    ]

-- Nothing is to write only if the batch is empty.
abbrev pub HasAll : Adding → Type 0
HasAll st = st.has_writes ≡ false → st.batch ≡ []

update-HasAll :
    (key m v : Bytes) (s : F64) (st : Adding)
    → HasAll st
    → HasAll (update_member key (s, m) (stored_score v) st)
update-HasAll key m v s st h = elim (Bool-cases (eq_f64 (stored_score v) s)) [
  | inl k ↦ rw k h
  | inr k ↦ rw k (λ bad. cc bad)
]

pub add_elements-HasAll :
    (key : Bytes) (es : List (Element × Option Bytes)) (st : Adding)
    → HasAll st
    → HasAll (add_elements key es st)
unfolding add_elements
add_elements-HasAll key [] st h = h
add_elements-HasAll key ((e, none) ∷ es) st h =
    add_elements-HasAll key es (add_member key e st) (λ bad. cc bad)
add_elements-HasAll key (((s, m), some v) ∷ es) st h =
    add_elements-HasAll key es (update_member key (s, m) (stored_score v) st)
      (update-HasAll key m v s st h)
