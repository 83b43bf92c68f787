-- ===== src/Storage/Lists/Push.antt =====
-- What the pushes of nimbis-storage/src/storage_list.rs leave.
use nimbis.Prelude.{
  ℕ, suc, ◌+◌, ◌<◌, ◌≤◌, ◌^◌, ◌≡◌, ◌≢◌, ◌∙◌, refl, sym, ap, Bool, true, false, Bytes, List, [], ◌∷◌,
  ◌++◌, arith, le→leb, length, length-append, Option, some, inl, inr, Bool-cases,
}
use nimbis.Resp.Utils.{same_bytes}
use nimbis.Storage.BytesEq.{eq_of_same_bytes}
use nimbis.Storage.DataType.{DataType}
use nimbis.Storage.Meta.{ListMetaValue}
use nimbis.Storage.Database.{Db, default_ttl}
use nimbis.Storage.Elements.{current_value}
use nimbis.Storage.Engine.{World}
use nimbis.Storage.Engine.Entries.{Put}
use nimbis.Storage.Lists.{element_key, previous, place, pushed}
use nimbis.Storage.Lists.Span.{
  push_one, element_keys_apart, at, Elements, AreLasting, Span, elements_same, elements_snoc,
}

newest_value :
    (version n : ℕ) (v : Bytes) (ts : Option ℕ)
    → version ≤ n
    → current_value version (some (record { value = v; seq = n; expire_ts = ts })) ≡ some v
newest_value version n v ts h = rw (le→leb version n h) refl

-- There are sequence numbers left on the side of the push.
abbrev pub Room : Bool → ℕ → ListMetaValue → Type 0
Room true n m = n ≤ m.head
Room false n m = m.tail + n < 2 ^ 64

module _ {D E : Type 0} {db : Db D E} (key : Bytes) (version : ℕ) where
  pub Put-lasting :
      (seq n : ℕ) (x : Bytes) (w w' : World db)
      → Put DataType.list (element_key key seq) x default_ttl n w w'
      → AreLasting w key
      → AreLasting w' key
  Put-lasting seq n x w w' put lasting s kv e =
      elim (Bool-cases (same_bytes (element_key key s) (element_key key seq))) [
        | inl same ↦
            let there = rw (eq_of_same_bytes (element_key key s) (element_key key seq) same) at e in
            let kvs : record { value = x; seq = n; expire_ts = put.expires } ≡ kv =
              cc (put.change.there, there) in
            ap (λ kv. kv.expire_ts) (sym kvs) ∙ put.expiry
        | inr other ↦ lasting s kv (sym (put.change.others (element_key key s) other) ∙ e)
      ]

  Put-there :
      (seq n : ℕ) (x : Bytes) (w w' : World db)
      → Put DataType.list (element_key key seq) x default_ttl n w w'
      → version ≤ n
      → current_value version (at w' key seq) ≡ some x
  Put-there seq n x w w' put h = rw put.change.there (newest_value version n x put.expires h)

  put_beside :
      (seq n head : ℕ) (x : Bytes) (es : List Bytes) (w w' : World db)
      → Put DataType.list (element_key key seq) x default_ttl n w w'
      → seq < 2 ^ 64
      → head + length es < 2 ^ 64
      → ((s : ℕ) → head ≤ s → s < head + length es → s ≢ seq)
      → Elements w key version head es
      → Elements w' key version head es
  put_beside seq n head x es w w' put h k apart = elements_same w w' key version head es λ s a b.
      put.change.others (element_key key s)
        (element_keys_apart key s seq (omega arith) h (apart s a b))

  pub push_one_lem :
      (is_left : Bool) (n : ℕ) (x : Bytes) (m : ListMetaValue) (es : List Bytes) (w w' : World db)
      → Span w key version m es
      → version ≤ n
      → Room is_left 1 m
      → Put DataType.list (element_key key (place is_left m)) x default_ttl n w w'
      → Span w' key version (pushed is_left m) (push_one is_left x es)
  push_one_lem true n x m es w w' s h room put =
      let t = s.tail in
      let b = s.bound in
      let before : suc (previous m.head) ≡ m.head = omega arith in
      record {
        lasting = Put-lasting (previous m.head) n x w w' put s.lasting;
        len = omega (arith, s.len);
        tail = omega arith;
        bound = b;
        elements = (
          Put-there (previous m.head) n x w w' put h,
          rw before (
              put_beside (previous m.head) n m.head x es w w' put (omega arith) (omega arith)
                (λ q a c e. omega arith) s.elements),
        );
      }
  push_one_lem false n x m es w w' s h room put =
      let t = s.tail in
      let b = s.bound in
      let longer : length (es ++ x ∷ []) ≡ suc (length es) =
        omega (arith, length-append es (x ∷ [])) in
      record {
        lasting = Put-lasting m.tail n x w w' put s.lasting;
        len = omega (arith, s.len);
        tail = omega arith;
        bound = omega arith;
        elements =
            elements_snoc w' key version m.head es x
              (put_beside m.tail n m.head x es w w' put b (omega arith) (λ q a c e. omega arith)
                s.elements)
              (ap (λ q. current_value version (at w' key q)) (sym t)
                ∙ Put-there m.tail n x w w' put h);
      }
