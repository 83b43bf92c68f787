-- ===== src/Storage/Lists/Pops.antt =====
-- The pops of nimbis-storage/src/storage_list.rs: the loop and the metadata.
use nimbis.Prelude.{
  ℕ, zero, suc, ◌<◌, ◌≤◌, ◌^◌, ◌≡◌, ◌≢◌, ◌∙◌, ap, refl, sym, subst, inl, inr, Bool-cases, Bool,
  true, false, Bytes, List, [], ◌∷◌, ◌++◌, arith, append_assoc, append-nil, ◌==◌, length, ok,
  Option, none, some,
}
use nimbis.Resp.External.{External, bytes_capacity}
use nimbis.Storage.DataType.{DataType}
use nimbis.Storage.Meta.{ListMetaValue}
use nimbis.Storage.Database.{Db}
use nimbis.Storage.Elements.{current_value}
use nimbis.Storage.Elements.Writes.{Ensures-read}
use nimbis.Storage.Engine.{
  World, Action, ◌>>=◌, ◌>>◌, pure, delete_entry, put_meta, get_meta, list_meta, meta_key,
}
use nimbis.Storage.Engine.Rules.{
  Ensures, Ensures-pure, Ensures-bind, Ensures-mono, Ensures-after, bind_ok,
}
use nimbis.Storage.Engine.Entries.{entry, delete_entry_lem}
use nimbis.Storage.Lists.{
  element_key, end_of, popped, at_most, count_or_one, pop_elements, finish_pop, pop_from, list_pop,
}
use nimbis.Storage.Lists.Span.{Span}
use nimbis.Storage.Lists.Pop.{taken, left, pop_all, length-left, value_at_end, pop_one_lem}
use nimbis.Storage.Lists.Pushes.{ListAt, ListFound, put_meta-ListAt}

popped_same :
    (is_left : Bool) (m : ListMetaValue)
    → ((popped is_left m).version ≡ m.version) × ((popped is_left m).expire_time ≡ m.expire_time)
popped_same true m = (refl, refl)
popped_same false m = (refl, refl)

module _ {D E : Type 0} {db : Db D E} (key : Bytes) where
  abbrev Popped :
      ListMetaValue
      → List Bytes
      → List Bytes × List Bytes
      → ListMetaValue × List Bytes
      → World db
      → Type 0
  Popped m results (r, rest) (m', results') w' =
      (results' ≡ results ++ r)
      × (m'.version ≡ m.version)
      × (m'.expire_time ≡ m.expire_time)
      × Span w' key m.version m' rest

  abbrev pop_value :
      Bool → ℕ → ListMetaValue → List Bytes → Option Bytes → Action db (ListMetaValue × List Bytes)
  pop_value is_left n m results found = elim found [
    | none ↦ pop_elements key is_left n m results
    | some value ↦ do
      delete_entry DataType.list (element_key key (end_of is_left m))
      pop_elements key is_left n (popped is_left m) (results ++ value ∷ [])
  ]

  pop_elements_lem :
      (is_left : Bool) (n : ℕ) (es : List Bytes) (m : ListMetaValue) (results : List Bytes)
      (w : World db)
      → n ≤ length es
      → Span w key m.version m es
      → Ensures true
          (Popped m results (pop_all is_left n es))
          (pop_elements key is_left n m results w)
  unfolding pop_elements pop_all
  pop_elements_lem is_left zero es m results w h s =
      Ensures-pure (sym (append-nil results), refl, refl, s)
  pop_elements_lem is_left (suc n) [] m results w h s = absurd (omega arith)
  pop_elements_lem is_left (suc n) (x ∷ es) m results w h s =
      let (same_version, same_expiry) = popped_same is_left m in
      let fewer = length-left is_left x es in
      let seq = end_of is_left m in
      let x' = taken is_left x es in
      Ensures-read DataType.list (element_key key seq)
        (λ kv. pop_value is_left n m results (current_value m.version kv)) w (s.lasting seq)
        (rw (value_at_end key m.version is_left x es m w s) (
          Ensures-bind (delete_entry DataType.list (element_key key seq))
            (λ _. pop_elements key is_left n (popped is_left m) (results ++ x' ∷ [])) w
            (delete_entry_lem DataType.list (element_key key seq) w)
            λ _ w1 ch.
              Ensures-mono
                (pop_elements_lem is_left n (left is_left x es) (popped is_left m)
                  (results ++ x' ∷ []) w1 (omega (arith, fewer))
                  (subst (λ v. Span w1 key v (popped is_left m) (left is_left x es))
                    (sym same_version) (pop_one_lem key m.version is_left x es m w w1 s ch)))
                λ (m', r) w' (e, v, ts, s'). (
                  e ∙ append_assoc results (x' ∷ []) (pop_all is_left n (left is_left x es)).0,
                  v ∙ same_version,
                  ts ∙ same_expiry,
                  subst (λ v. Span w' key v m' (pop_all is_left n (left is_left x es)).1)
                      same_version s',
                )))

  -- What is left of a list: nothing at all without elements.
  abbrev pub PopLeaves : List Bytes → World db → Type 0
  PopLeaves [] w = entry DataType.string w (meta_key key) ≡ none
  PopLeaves (x ∷ es) w = ListAt key (x ∷ es) w

  put_rest :
      (m : ListMetaValue) (r : List Bytes) (x : Bytes) (es : List Bytes) (w : World db)
      → Span w key m.version m (x ∷ es)
      → m.version < 2 ^ 64
      → m.expire_time < 2 ^ 64
      → Ensures true
          (λ r' w'. (r' ≡ r) × ListAt key (x ∷ es) w')
          ((put_meta list_meta key m >> pure r) w)
  put_rest m r x es w s v ts =
      Ensures-bind (put_meta list_meta key m) (λ _. pure r) w
        (put_meta-ListAt key m (x ∷ es) w s v ts) λ _ w' l. Ensures-pure (refl, l)

  finish_pop_lem :
      (m : ListMetaValue) (r rest : List Bytes) (w : World db)
      → Span w key m.version m rest
      → m.version < 2 ^ 64
      → m.expire_time < 2 ^ 64
      → Ensures true (λ r' w'. (r' ≡ r) × PopLeaves rest w') (finish_pop key (m, r) w)
  finish_pop_lem m r [] w s v ts =
      let zero_len : (m.len == 0) ≡ true = let l = s.len in ground arith in
      rw zero_len (
        Ensures-bind (delete_entry DataType.string (meta_key key)) (λ _. pure r) w
          (delete_entry_lem DataType.string (meta_key key) w)
          λ _ w' ch. Ensures-pure (refl, ch.there))
  finish_pop_lem m r (x ∷ es) w s v ts =
      let some_left : (m.len == 0) ≡ false = let l = s.len in ground arith in
      rw some_left (put_rest m r x es w s v ts)

  abbrev pop_found :
      ⦃x : External⦄
      → Bytes
      → Option ℕ
      → Bool
      → Option ListMetaValue
      → Action db (Option (List Bytes))
  pop_found k count is_left found = elim found [
    | none ↦ pure (some [])
    | some m ↦ pop_from k is_left (count_or_one count) m
  ]

  -- A pop of at least one element from a list returns the elements at the left or at the right end, one
  -- after the other, as many as it was asked for or as there are, and leaves the others; without elements
  -- the metadata is gone. The only errors after the lookup are those of a database. The elements before
  -- stand at the sequence numbers from head to tail, version and time of expiry fit u64, and a vector has
  -- room for the elements that are asked for: otherwise the pop panics.
  pub list_pop-PopLeaves :
      ⦃x : External⦄ (is_left : Bool) (count : Option ℕ) (es : List Bytes) (m : ListMetaValue)
      (w w1 : World db)
      → x.has_room bytes_capacity (count_or_one count) ≡ true
      → get_meta list_meta key w ≡ (ok (some m), w1)
      → ListFound key (some m) es w1
      → 0 < count_or_one count
      → Ensures true
          (λ r w'.
            (r ≡ some ((pop_all is_left (at_most (count_or_one count) (length es)) es).0))
            × PopLeaves (pop_all is_left (at_most (count_or_one count) (length es)) es).1 w')
          (list_pop key count is_left w)
  unfolding list_pop
  list_pop-PopLeaves ⦃x⦄ is_left count es m w w1 enough e (s, h, v, ts) more =
      let num = count_or_one count in
      let n = at_most num m.len in
      let p = pop_all is_left n es in
      let not_zero : (num == 0) ≡ false = ground arith in
      let within : n ≤ length es = let l = s.len in ground arith in
      subst
        (λ l.
          Ensures true
            (λ r w'.
              (r ≡ some ((pop_all is_left (at_most num l) es).0))
              × PopLeaves (pop_all is_left (at_most num l) es).1 w')
            (list_pop key count is_left w))
        s.len rw
        (
          bind_ok (get_meta list_meta key)
              (λ found. elim found as (λ _. Action db (Option (List Bytes))) [
                | none ↦ pure (some [])
                | some m ↦ pop_from key is_left num m
              ])
              w w1 (some m) e,
          not_zero,
          enough,
        )
        (Ensures-bind (pop_elements key is_left n m [])
          (λ after. finish_pop key after >>= (λ results. pure (some results))) w1
          (pop_elements_lem is_left n es m [] w1 within s)
          λ (m', r) w2 (e, v', ts', s').
            Ensures-bind (finish_pop key (m', r)) (λ results. pure (some results)) w2
              (finish_pop_lem m' r p.1 w2 (subst (λ v. Span w2 key v m' p.1) (sym v') s') (rw v' v)
                (rw ts' ts))
              λ r' w' (same, left_over). Ensures-pure (ap some (same ∙ e), left_over))

  -- With room for the elements that it was asked for, a pop does not panic.
  pub list_pop_returns :
      ⦃x : External⦄ (count : Option ℕ) (is_left : Bool) (w : World db)
      → x.has_room bytes_capacity (count_or_one count) ≡ true
      → Ensures false (λ r w'. r ≢ none) (list_pop key count is_left w)
  unfolding list_pop
  list_pop_returns ⦃x⦄ count is_left w enough =
      Ensures-after (get_meta list_meta key) (pop_found key count is_left) w
        λ found w1. from_found found w1
    where
      from_found :
          (found : Option ListMetaValue) (w1 : World db)
          → Ensures false (λ r w'. r ≢ none) (pop_found key count is_left found w1)
      from_found none w1 = Ensures-pure cc
      from_found (some m) w1 = elim (Bool-cases (count_or_one count == 0)) [
        | inl e ↦ rw e (Ensures-pure cc)
        | inr e ↦
            rw (e, enough)
              (Ensures-after (pop_elements key is_left (at_most (count_or_one count) m.len) m [])
                (λ after. finish_pop key after >>= (λ results. pure (some results))) w1
                λ after w2.
                  Ensures-after (finish_pop key after) (λ results. pure (some results)) w2
                    λ results w3. Ensures-pure cc)
      ]
