-- ===== src/Storage/Lists/Pop.antt =====
-- A pop of nimbis-storage/src/storage_list.rs as a pop from a list of elements.
use nimbis.Prelude.{
  ℕ, zero, suc, ◌+◌, ◌<◌, ◌≤◌, ◌^◌, ◌≡◌, ◌≢◌, ◌∙◌, refl, sym, ap, Bool, true, false, Bytes, List,
  [], ◌∷◌, arith, length, none, some, inl, inr, Bool-cases,
}
use nimbis.Resp.Utils.{same_bytes}
use nimbis.Storage.BytesEq.{eq_of_same_bytes}
use nimbis.Storage.DataType.{DataType}
use nimbis.Storage.Meta.{ListMetaValue}
use nimbis.Storage.Database.{Db}
use nimbis.Storage.Elements.{current_value}
use nimbis.Storage.Engine.{World}
use nimbis.Storage.Engine.Entries.{Change}
use nimbis.Storage.Lists.{element_key, next, previous, end_of, popped}
use nimbis.Storage.Lists.Span.{element_keys_apart, at, Elements, AreLasting, Span, elements_same}

-- What a pop takes of the elements `x ∷ es`, and what it leaves.
abbrev pub last : Bytes → List Bytes → Bytes
last x [] = x
last x (y ∷ ys) = last y ys

abbrev pub front : Bytes → List Bytes → List Bytes
front x [] = []
front x (y ∷ ys) = x ∷ front y ys

abbrev pub taken : Bool → Bytes → List Bytes → Bytes
taken true x es = x
taken false x es = last x es

abbrev pub left : Bool → Bytes → List Bytes → List Bytes
left true x es = es
left false x es = front x es

-- `n` pops one after the other: what they return, and what they leave.
unfoldable pub pop_all : Bool → ℕ → List Bytes → List Bytes × List Bytes
pop_all is_left zero es = ([], es)
pop_all is_left (suc n) [] = ([], [])
pop_all is_left (suc n) (x ∷ es) =
    let (r, rest) = pop_all is_left n (left is_left x es) in (taken is_left x es ∷ r, rest)

pub length-left :
    (is_left : Bool) (x : Bytes) (es : List Bytes) → length (left is_left x es) ≡ length es
length-left true x es = refl
length-left false x [] = refl
length-left false x (y ∷ ys) = ap suc (length-left false y ys)

module _ {D E : Type 0} {db : Db D E} (key : Bytes) (version : ℕ) where
  delete_lasting :
      (seq : ℕ) (w w' : World db)
      → Change DataType.list (element_key key seq) w w' none
      → AreLasting w key
      → AreLasting w' key
  delete_lasting seq w w' ch lasting s kv e =
      elim (Bool-cases (same_bytes (element_key key s) (element_key key seq))) [
        | inl same ↦
            let there = rw (eq_of_same_bytes (element_key key s) (element_key key seq) same) at e in
            absurd (cc (ch.there, there))
        | inr other ↦ lasting s kv (sym (ch.others (element_key key s) other) ∙ e)
      ]

  delete_beside :
      (seq head : ℕ) (es : List Bytes) (w w' : World db)
      → Change DataType.list (element_key key seq) w w' none
      → seq < 2 ^ 64
      → head + length es < 2 ^ 64
      → ((s : ℕ) → head ≤ s → s < head + length es → s ≢ seq)
      → Elements w key version head es
      → Elements w' key version head es
  delete_beside seq head es w w' ch h k apart = elements_same w w' key version head es λ s a b.
      ch.others (element_key key s) (element_keys_apart key s seq (omega arith) h (apart s a b))

  elements_front :
      (w : World db) (head : ℕ) (x : Bytes) (es : List Bytes)
      → Elements w key version head (x ∷ es)
      → Elements w key version head (front x es)
        × (current_value version (at w key (head + length es)) ≡ some (last x es))
  elements_front w head x [] (first, rest) =
      let same : head + 0 ≡ head = omega arith in
      (tt, ap (λ n. current_value version (at w key n)) same ∙ first)
  elements_front w head x (y ∷ ys) (first, rest) =
      let (e, l) = elements_front w (suc head) y ys rest in
      let same : head + suc (length ys) ≡ suc head + length ys = omega arith in
      ((first, e), ap (λ n. current_value version (at w key n)) same ∙ l)

  -- The element at the end that a pop takes from.
  pub value_at_end :
      (is_left : Bool) (x : Bytes) (es : List Bytes) (m : ListMetaValue) (w : World db)
      → Span w key version m (x ∷ es)
      → current_value version (at w key (end_of is_left m)) ≡ some (taken is_left x es)
  value_at_end true x es m w s = s.elements.0
  value_at_end false x es m w s =
      let t = s.tail in
      let b = s.bound in
      let same : previous m.tail ≡ m.head + length es = omega arith in
      ap (λ n. current_value version (at w key n)) same
      ∙ (elements_front w m.head x es s.elements).1

  pub pop_one_lem :
      (is_left : Bool) (x : Bytes) (es : List Bytes) (m : ListMetaValue) (w w' : World db)
      → Span w key version m (x ∷ es)
      → Change DataType.list (element_key key (end_of is_left m)) w w' none
      → Span w' key version (popped is_left m) (left is_left x es)
  pop_one_lem true x es m w w' s ch =
      let t = s.tail in
      let b = s.bound in
      let l = s.len in
      let after : next m.head ≡ suc m.head = omega arith in
      record {
        lasting = delete_lasting m.head w w' ch s.lasting;
        len = omega arith;
        tail = omega arith;
        bound = b;
        elements = rw after (
            delete_beside m.head (suc m.head) es w w' ch (omega arith) (omega arith)
              (λ q a c e. omega arith) s.elements.1);
      }
  pop_one_lem false x es m w w' s ch =
      let t = s.tail in
      let b = s.bound in
      let l = s.len in
      let same : previous m.tail ≡ m.head + length es = omega arith in
      let fewer = length-left false x es in
      record {
        lasting = delete_lasting (previous m.tail) w w' ch s.lasting;
        len = omega (arith, fewer);
        tail = omega (arith, fewer);
        bound = omega arith;
        elements =
            delete_beside (previous m.tail) m.head (front x es) w w' ch (omega arith)
              (omega (arith, fewer)) (λ q a c e. omega (arith, fewer))
              (elements_front w m.head x es s.elements).0;
      }
