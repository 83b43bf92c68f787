-- ===== src/Storage/Zsets/Scores.antt =====
-- Scores of nimbis-storage/src/storage_zset.rs as they are given to `zadd`, stored and found.
use nimbis.Prelude.{
  ℕ, ◌<◌, ◌^◌, ◌≡◌, ◌∙◌, refl, sym, ap, true, false, Bytes, List, [], ◌∷◌, arith, leb,
  if◌then◌else◌, Option, none, some, inl, inr, Bool-cases, append-nil, All, subst,
}
use nimbis.Resp.Types.{F64, eq_f64, is_nan}
use nimbis.Resp.Utils.{same_bytes}
use nimbis.Storage.BytesEq.{eq_of_same_bytes, same_bytes_sym}
use nimbis.Storage.BigEndian.{get_be-be_bytes}
use nimbis.Storage.Score.{
  encode_score, decode_score, without_sign_of_zero, decode_score-encode_score, encode_score_bound,
}
use nimbis.Storage.Database.{KeyValue, Reads}
use nimbis.Storage.Elements.{current_value, has}
use nimbis.Storage.Zsets.{
  Element, names, MapOrder, last_scores, score_of, stored_score, score_bytes, insert_score,
}
use nimbis.Storage.Zsets.Batch.{score_entry, with_score}

stored_score-score_bytes :
    (s : F64)
    → s < 2 ^ 64
    → is_nan s ≡ false
    → stored_score (score_bytes s) ≡ without_sign_of_zero s
stored_score-score_bytes s h n =
    let read = rw append-nil at (get_be-be_bytes 8 (encode_score s) [] (encode_score_bound s h)) in
    ap decode_score read ∙ decode_score-encode_score s h n

eq_f64-without_sign_of_zero :
    (s : F64) → s < 2 ^ 64 → is_nan s ≡ false → eq_f64 (without_sign_of_zero s) s ≡ true
eq_f64-without_sign_of_zero s h n = ground arith

-- The entry is there, with a score that is equal to `s`.
abbrev pub HasScore : F64 → Option KeyValue → Type 0
HasScore s e = (kv : KeyValue) × (e ≡ some kv) × (eq_f64 (stored_score kv.value) s ≡ true)

-- What was found under a member is the value of its entry.
abbrev pub Was : Option Bytes → Option KeyValue → Type 0
Was none e = Unit
Was (some v) e = (kv : KeyValue) × (e ≡ some kv) × (kv.value ≡ v)

score_entry-HasScore :
    (n : ℕ) (s : F64) → s < 2 ^ 64 → is_nan s ≡ false → HasScore s (score_entry n s)
score_entry-HasScore n s h k =
    (_, refl, rw (stored_score-score_bytes s h k) (eq_f64-without_sign_of_zero s h k))

pub with_score-HasScore :
    (n : ℕ) (s : F64) (old : Option Bytes) (e : Option KeyValue)
    → s < 2 ^ 64
    → is_nan s ≡ false
    → Was old e
    → HasScore s (with_score n s old e)
with_score-HasScore n s none e h k was = score_entry-HasScore n s h k
with_score-HasScore n s (some v) e h k (kv, there, same) =
    elim (Bool-cases (eq_f64 (stored_score v) s)) [
      | inl q ↦ rw q (kv, there, rw same q)
      | inr q ↦ rw q (score_entry-HasScore n s h k)
    ]

pub read_Was : (version : ℕ) (e r : Option KeyValue) → Reads e r → Was (current_value version r) e
read_Was version none r h = rw h tt
read_Was version (some kv) r (inl h) =
    rw h
      (elim (Bool-cases (leb version kv.seq)) [ inl q ↦ rw q (kv, refl, refl) | inr q ↦ rw q tt ])
read_Was version (some kv) r (inr (h, _)) = rw h tt

-- The score that stands last with a member.
abbrev pub last_score_of : Bytes → List Element → Option F64
last_score_of member [] = none
last_score_of member ((score, name) ∷ es) = elim (last_score_of member es) [
  | none ↦ if same_bytes member name then some score else none
  | some later ↦ some later
]

abbrev or_score : Option F64 → Option F64 → Option F64
or_score none s = s
or_score (some t) s = some t

score_of-insert_score :
    (x : Bytes) (es : List Element) (s : F64) (m : Bytes)
    → score_of x (insert_score es (s, m)) ≡ (if same_bytes x m then some s else score_of x es)
unfolding insert_score
score_of-insert_score x [] s m = refl
score_of-insert_score x ((old, name) ∷ es) s m = elim (Bool-cases (same_bytes m name)) [
  | inl f ↦
      rw (f, eq_of_same_bytes m name f)
        (elim (Bool-cases (same_bytes x name)) [ inl k ↦ rw k refl | inr k ↦ rw k refl ])
  | inr f ↦
      rw (f, score_of-insert_score x es s m)
        (elim (Bool-cases (same_bytes x name)) [
          | inl k ↦ rw (k, eq_of_same_bytes x name k, same_bytes_sym m name f) refl
          | inr k ↦ rw k refl
        ])
]

-- The loop keeps the last score of each member.
score_of-last_scores :
    (x : Bytes) (unique es : List Element)
    → score_of x (last_scores unique es) ≡ or_score (last_score_of x es) (score_of x unique)
unfolding last_scores
score_of-last_scores x unique [] = refl
score_of-last_scores x unique ((s, m) ∷ es) =
    rw (score_of-last_scores x (insert_score unique (s, m)) es, score_of-insert_score x unique s m)
      (choose (last_score_of x es))
  where
    choose :
        (later : Option F64)
        → or_score later (if same_bytes x m then some s else score_of x unique)
          ≡ or_score
              (elim later [ none ↦ if same_bytes x m then some s else none | some t ↦ some t ])
              (score_of x unique)
    choose none = elim (Bool-cases (same_bytes x m)) [ inl k ↦ rw k refl | inr k ↦ rw k refl ]
    choose (some t) = refl

pub last_given :
    ⦃o : MapOrder⦄ (elements : List Element) (x : Bytes)
    → score_of x (o.iterate (last_scores [] elements)) ≡ last_score_of x elements
last_given ⦃o⦄ elements x =
    o.score_of-iterate x (last_scores [] elements)
    ∙ score_of-last_scores x [] elements
    ∙ or_none (last_score_of x elements)
  where
    or_none : (s : Option F64) → or_score s none ≡ s
    or_none none = refl
    or_none (some t) = refl

pub has-names : (m : Bytes) (es : List Element) → score_of m es ≡ none → has m (names es) ≡ false
has-names m [] h = refl
has-names m ((s, name) ∷ es) h = elim (Bool-cases (same_bytes m name)) [
  | inl k ↦ absurd (let h' : some s ≡ none = rw k at h in cc h')
  | inr k ↦ rw k (has-names m es (rw k at h))
]

abbrev pub IsNumber : F64 → Type 0
IsNumber s = (s < 2 ^ 64) × (is_nan s ≡ false)

abbrev pub ScoresAreNumbers : List Element → Type 0
ScoresAreNumbers es = (m : Bytes) (s : F64) → score_of m es ≡ some s → IsNumber s

last_score_of-IsNumber :
    (elements : List Element) (m : Bytes) (s : F64)
    → All (λ (e : Element). IsNumber e.0) elements
    → last_score_of m elements ≡ some s
    → IsNumber s
last_score_of-IsNumber [] m s all h = cc h
last_score_of-IsNumber ((t, name) ∷ es) m s (number, all) h =
    choose (last_score_of m es) (last_score_of-IsNumber es m s all) h
  where
    choose :
        (later : Option F64)
        → (later ≡ some s → IsNumber s)
        → (elim later [ none ↦ if same_bytes m name then some t else none | some u ↦ some u ])
          ≡ some s
        → IsNumber s
    choose none rec k = elim (Bool-cases (same_bytes m name)) [
      | inl same ↦
          let k' : some t ≡ some s = rw same at k in
          let e : t ≡ s = cc k' in subst IsNumber e number
      | inr other ↦ absurd (let k' = rw other at k in cc k')
    ]
    choose (some u) rec k = rec k

pub last_scores-AreNumbers :
    ⦃o : MapOrder⦄ (elements : List Element)
    → All (λ (e : Element). IsNumber e.0) elements
    → ScoresAreNumbers (o.iterate (last_scores [] elements))
last_scores-AreNumbers elements all m s h =
    last_score_of-IsNumber elements m s all (sym (last_given elements m) ∙ h)
