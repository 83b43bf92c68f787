-- ===== src/Tests/Memory.antt =====
-- A database of nimbis-storage in memory: the entries in the order of their keys, and the next sequence
-- number. A call fails if the entries are not in order.
use nimbis.Prelude.{
  ℕ, suc, ◌<◌, ◌^◌, ◌≡◌, refl, ap, sym, ◌∙◌, Bool, true, false, ◌&&◌, Bytes, List, [], ◌∷◌, arith,
  if◌then◌else◌, Result, ok, err, Option, none, some, inl, inr, ltb, ltb→lt, subst, Bool-cases,
}
use nimbis.Resp.Utils.{same_bytes}
use nimbis.Storage.BytesEq.{same_bytes_refl, eq_of_same_bytes}
use nimbis.Storage.BigEndian.{bytes_less}
use nimbis.Storage.Engine.{World}
use nimbis.Storage.Database.{
  Db, KeyValue, Ttl, default_ttl, no_expiry, expire_after, BatchOp, batch_put, batch_delete, Expiry,
  Reads, after_batch, found_in, AreAfter, AscendingKeys,
}

abbrev pub Entries : Type 0
Entries = List (Bytes × KeyValue)

pub record Memory : Type 0 where
  pub next : ℕ
  pub entries : Entries

unfoldable pub put_in : Bytes → KeyValue → Entries → Entries
put_in k kv [] = (k, kv) ∷ []
put_in k kv ((j, x) ∷ es) =
    let rest = put_in k kv es in
    if same_bytes k j
    then (k, kv) ∷ es
    else if bytes_less k j
    then (k, kv) ∷ (j, x) ∷ es
    else (j, x) ∷ rest

unfoldable pub delete_in : Bytes → Entries → Entries
delete_in k [] = []
delete_in k ((j, x) ∷ es) =
    let rest = delete_in k es in if same_bytes k j then rest else (j, x) ∷ rest

unfoldable pub all_below : ℕ → Entries → Bool
all_below n [] = true
all_below n ((k, kv) ∷ es) = ltb kv.seq n && all_below n es

unfoldable pub all_after : Bytes → Entries → Bool
all_after k [] = true
all_after k ((j, kv) ∷ es) = bytes_less k j && all_after k es

unfoldable pub in_order : Entries → Bool
in_order [] = true
in_order ((k, kv) ∷ es) = all_after k es && in_order es

unfoldable pub from_start : Bytes → Entries → Entries
from_start s [] = []
from_start s ((k, kv) ∷ es) =
    let rest = from_start s es in if bytes_less k s then rest else (k, kv) ∷ rest

unfoldable pub run_batch : List BatchOp → ℕ → Entries → Entries
run_batch [] n es = es
run_batch (batch_put k v ∷ ops) n es =
    run_batch ops n (put_in k (record { value = v; seq = n; expire_ts = none }) es)
run_batch (batch_delete k ∷ ops) n es = run_batch ops n (delete_in k es)

abbrev pub expires_at : Ttl → Option ℕ
expires_at default_ttl = none
expires_at no_expiry = none
expires_at (expire_after ms) = some ms

pub expires_at-Expiry : (t : Ttl) → Expiry t (expires_at t)
expires_at-Expiry default_ttl = refl
expires_at-Expiry no_expiry = refl
expires_at-Expiry (expire_after ms) = cc

pub found_in-put_in :
    (k j : Bytes) (kv : KeyValue) (es : Entries)
    → found_in j (put_in k kv es) ≡ (if same_bytes j k then some kv else found_in j es)
unfolding put_in
found_in-put_in k j kv [] = refl
found_in-put_in k j kv ((i, x) ∷ es) = elim (Bool-cases (same_bytes k i)) [
  | inl e ↦ let same = eq_of_same_bytes k i e in ground (arith, same)
  | inr e ↦ ground (arith, e, found_in-put_in k j kv es, eq_of_same_bytes j k, eq_of_same_bytes j i)
]

pub found_in-delete_in :
    (k j : Bytes) (es : Entries)
    → found_in j (delete_in k es) ≡ (if same_bytes j k then none else found_in j es)
unfolding delete_in
found_in-delete_in k j [] = ground arith
found_in-delete_in k j ((i, x) ∷ es) = elim (Bool-cases (same_bytes k i)) [
  | inl e ↦ let same = eq_of_same_bytes k i e in ground (arith, same, found_in-delete_in k j es)
  | inr e ↦ ground (arith, e, found_in-delete_in k j es, eq_of_same_bytes j k, eq_of_same_bytes j i)
]

found_in-run_batch :
    (ops : List BatchOp) (n : ℕ) (j : Bytes) (es : Entries)
    → found_in j (run_batch ops n es) ≡ after_batch ops n j (found_in j es)
unfolding run_batch
found_in-run_batch [] n j es = refl
found_in-run_batch (batch_put k v ∷ ops) n j es =
    rw
      (
        found_in-run_batch ops n j (put_in k (record { value = v; seq = n; expire_ts = none }) es),
        found_in-put_in k j (record { value = v; seq = n; expire_ts = none }) es,
      )
      refl
found_in-run_batch (batch_delete k ∷ ops) n j es =
    rw (found_in-run_batch ops n j (delete_in k es), found_in-delete_in k j es) refl

and_true : (a b : Bool) → a && b ≡ true → (a ≡ true) × (b ≡ true)
and_true true b h = (refl, h)
and_true false b h = cc

pub all_below_lem :
    (n : ℕ) (es : Entries) (j : Bytes) (kv : KeyValue)
    → all_below n es ≡ true
    → found_in j es ≡ some kv
    → kv.seq < n
unfolding all_below
all_below_lem n [] j kv h e = cc
all_below_lem n ((k, x) ∷ es) j kv h e =
    let (first, rest) = and_true (ltb x.seq n) _ h in
    elim (Bool-cases (same_bytes j k)) [
      | inl s ↦
          let same : x ≡ kv = cc (rw s at e) in subst (λ y. y.seq < n) same (ltb→lt x.seq n first)
      | inr s ↦ all_below_lem n es j kv rest (rw s at e)
    ]

all_after-AreAfter :
    (s k : Bytes) (es : Entries) → all_after k es ≡ true → AreAfter k (from_start s es)
unfolding all_after from_start
all_after-AreAfter s k [] h = tt
all_after-AreAfter s k ((j, x) ∷ es) h =
    let (first, rest) = and_true (bytes_less k j) _ h in
    elim (Bool-cases (bytes_less j s)) [
      | inl b ↦ rw b (all_after-AreAfter s k es rest)
      | inr b ↦ rw b (first, all_after-AreAfter s k es rest)
    ]

pub in_order-AscendingKeys :
    (s : Bytes) (es : Entries) → in_order es ≡ true → AscendingKeys s (from_start s es)
unfolding in_order from_start
in_order-AscendingKeys s [] h = tt
in_order-AscendingKeys s ((k, x) ∷ es) h =
    let (first, rest) = and_true (all_after k es) _ h in
    elim (Bool-cases (bytes_less k s)) [
      | inl b ↦ rw b (in_order-AscendingKeys s es rest)
      | inr b ↦ rw b (b, all_after-AreAfter s k es first, in_order-AscendingKeys s es rest)
    ]

pub found_in-from_start :
    (s j : Bytes) (es : Entries)
    → bytes_less j s ≡ false
    → found_in j (from_start s es) ≡ found_in j es
unfolding from_start
found_in-from_start s j [] h = refl
found_in-from_start s j ((k, x) ∷ es) h = elim (Bool-cases (same_bytes j k)) [
  | inl e ↦
      let same = eq_of_same_bytes j k e in ground (arith, e, same, found_in-from_start s j es h)
  | inr e ↦ ground (arith, e, found_in-from_start s j es h)
]

pub Reads-itself : (e : Option KeyValue) → Reads e e
Reads-itself none = refl
Reads-itself (some kv) = inl refl

-- Whether an entry can be written: there are sequence numbers left, above all that were given out.
abbrev pub writable : Memory → Bool
writable d = all_below d.next d.entries && ltb d.next (2 ^ 64)

abbrev pub put_entry_at : Memory → Bytes → Bytes → Ttl → Memory
put_entry_at d k v t = record {
  next = suc d.next;
  entries = put_in k (record { value = v; seq = d.next; expire_ts = expires_at t }) d.entries;
}

abbrev pub put_memory : Memory → Bytes → Bytes → Ttl → Result Bytes (Memory × ℕ)
put_memory d k v t = if writable d then ok (put_entry_at d k v t, d.next) else err []

abbrev pub write_memory : Memory → List BatchOp → Result Bytes Memory
write_memory d ops =
    if writable d
    then ok (record { next = suc d.next; entries = run_batch ops d.next d.entries })
    else err []

abbrev pub scan_memory : Memory → Bytes → Result Bytes Entries
scan_memory d s = if in_order d.entries then ok (from_start s d.entries) else err []

done :
    {A : Type 0} (b : Bool) (a a' : A) (e : Bytes)
    → (if b then ok a else err e) ≡ ok a'
    → (b ≡ true) × (a ≡ a')
done true a a' e h = (refl, cc)
done false a a' e h = cc

pub put_done :
    (d d' : Memory) (k v : Bytes) (t : Ttl) (n : ℕ)
    → put_memory d k v t ≡ ok (d', n)
    → (all_below d.next d.entries ≡ true)
      × (d.next < 2 ^ 64)
      × (d' ≡ put_entry_at d k v t)
      × (n ≡ d.next)
put_done d d' k v t n h =
    let (b, e) = done (writable d) _ _ [] h in
    let (below, room) = and_true (all_below d.next d.entries) _ b in
    (below, ltb→lt _ _ room, sym (ap (λ p. p.0) e), sym (ap (λ p. p.1) e))

pub write_done :
    (d d' : Memory) (ops : List BatchOp)
    → write_memory d ops ≡ ok d'
    → (n : ℕ) × ((j : Bytes) → found_in j d'.entries ≡ after_batch ops n j (found_in j d.entries))
      × ((j : Bytes) (kv : KeyValue) → found_in j d.entries ≡ some kv → kv.seq < n)
      × (n < 2 ^ 64)
write_done d d' ops h =
    let (b, e) = done (writable d) _ _ [] h in
    let (below, room) = and_true (all_below d.next d.entries) _ b in
    (
      d.next,
      λ j. ap (λ x. found_in j x.entries) (sym e) ∙ found_in-run_batch ops d.next j d.entries,
      λ j kv f. all_below_lem d.next d.entries j kv below f,
      ltb→lt _ _ room,
    )

pub scan_done :
    (d : Memory) (s : Bytes) (es : Entries)
    → scan_memory d s ≡ ok es
    → (in_order d.entries ≡ true) × (from_start s d.entries ≡ es)
scan_done d s es h = done (in_order d.entries) _ _ [] h

pub ok_inj : {A : Type 0} (a b : A) (r : Result Bytes A) → r ≡ ok a → r ≡ ok b → a ≡ b
ok_inj a b r h k = cc

abbrev pub memory_db : Db Memory Bytes
memory_db = record {
  get_key_value = λ d k. ok (found_in k d.entries);
  put_with_options = put_memory;
  delete_with_options = λ d k. ok (record d { entries = delete_in k d.entries });
  write_with_options = write_memory;
  scan = scan_memory;
  view = λ d k. found_in k d.entries;
  get-view = λ d k r h.
      subst (Reads (found_in k d.entries)) (ok_inj _ _ _ refl h)
        (Reads-itself (found_in k d.entries));
  put-view = λ d d' k v t n h.
      let (below, room, e, same) = put_done d d' k v t n h in
      (
        expires_at t,
        ap (λ x. found_in k x.entries) e
            ∙ found_in-put_in k k _ d.entries
            ∙ rw (same_bytes_refl k, same) refl,
        expires_at-Expiry t,
        rw same room,
      );
  put-others = λ d d' k v t n h j o.
      let (below, room, e, same) = put_done d d' k v t n h in
      ap (λ x. found_in j x.entries) e ∙ found_in-put_in k j _ d.entries ∙ rw o refl;
  put_newer = λ d d' k v t n h j kv f.
      let (below, room, e, same) = put_done d d' k v t n h in
      rw same (all_below_lem d.next d.entries j kv below f);
  delete-view = λ d d' k h j.
      let same : record d { entries = delete_in k d.entries } ≡ d' = ok_inj _ _ _ refl h in
      ap (λ x. found_in j x.entries) (sym same) ∙ found_in-delete_in k j d.entries;
  write-view = λ d d' ops h. write_done d d' ops h;
  scan_ascending = λ d s es h.
      let (b, e) = scan_done d s es h in
      subst (AscendingKeys s) e (in_order-AscendingKeys s d.entries b);
  scan-view = λ d s es h j o.
      let (b, e) = scan_done d s es h in
      subst (λ x. Reads (found_in j d.entries) (found_in j x)) e
        (rw (found_in-from_start s j d.entries o) (Reads-itself (found_in j d.entries)));
}

-- All databases empty, and a clock that stands still.
abbrev pub empty_world : World memory_db
empty_world = record {
  string_db = record { next = 1; entries = [] };
  hash_db = record { next = 1; entries = [] };
  list_db = record { next = 1; entries = [] };
  set_db = record { next = 1; entries = [] };
  zset_db = record { next = 1; entries = [] };
  clock = λ n. 1000;
  ticks = 0;
}
