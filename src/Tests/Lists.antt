-- ===== src/Tests/Lists.antt =====
-- The operations on lists of nimbis-storage on databases in memory.
use nimbis.Prelude.{
  ℕ, ◌+◌, ◌≡◌, refl, subst, true, false, Bytes, [], ◌∷◌, codes, arith, Result, ok, none, some,
}
use nimbis.Resp.Utils.{same_bytes}
use nimbis.Storage.BigEndian.{be_bytes, get_be, be_value}
use nimbis.Storage.DataType.{DataType, type_code}
use nimbis.Storage.Keys.{encode_meta_key, put_u16_len}
use nimbis.Storage.Meta.{ListMetaValue, new_list_meta, encode_list_meta, decode_list_meta}
use nimbis.Storage.Engine.{
  World, StorageError, get_meta, list_meta, meta_key, read_entry, put_entry, put_meta,
  meta_put_opts, is_expired,
}
use nimbis.Storage.Engine.Rules.{Ensures, ensures_ok}
use nimbis.Storage.Engine.Entries.{entry}
use nimbis.Storage.Lists.{element_key, list_push, list_pop, push_elements}
use nimbis.Storage.Lists.Span.{Span}
use nimbis.Storage.Lists.Pop.{pop_all}
use nimbis.Storage.Lists.Pushes.{ListAt, list_push-ListAt}
use nimbis.Storage.Lists.Pops.{PopLeaves, list_pop-PopLeaves}
use nimbis.Tests.Resp.{toy}
use nimbis.Tests.Memory.{memory_db, empty_world, put_in, all_below}

abbrev name : Bytes
name = codes "n"

abbrev after : {A : Type 0} → Result (StorageError Bytes) A × World memory_db → World memory_db
after (r, w) = w

empty-get_meta : get_meta list_meta name empty_world ≡ (ok none, empty_world)
unfolding get_meta read_entry
empty-get_meta = refl

list_push-ListAt_example :
    Ensures true
      (λ n w. (n ≡ 1) × ListAt name (codes "a" ∷ []) w)
      (list_push name (codes "a" ∷ []) false empty_world)
unfolding new_list_meta
list_push-ListAt_example =
    list_push-ListAt name false (codes "a") [] [] none empty_world empty_world empty-get_meta
      ((λ seq kv e. cc), refl) (omega arith)

abbrev middle : ℕ
middle = 9223372036854775807

-- A list with one element.
abbrev one_meta : ListMetaValue
one_meta = record { version = 1; len = 1; head = middle; tail = middle + 1; expire_time = 0 }

abbrev one_element : World memory_db
one_element = record empty_world {
  list_db = record {
    next = 2;
    entries =
        (element_key name middle, record { value = codes "a"; seq = 1; expire_ts = none }) ∷ [];
  };
  string_db = record {
    next = 2;
    entries =
        (meta_key name, record { value = encode_list_meta one_meta; seq = 1; expire_ts = none })
        ∷ [];
  };
}

one_element-list_push : list_push name (codes "a" ∷ []) false empty_world ≡ (ok 1, one_element)
unfolding list_push push_elements get_meta read_entry put_entry put_meta meta_put_opts all_below
    put_in new_list_meta
one_element-list_push = refl

one_element-decode : decode_list_meta (encode_list_meta one_meta) ≡ ok one_meta
unfolding encode_list_meta decode_list_meta type_code be_bytes get_be be_value
one_element-decode = refl

one_element-entry :
    entry DataType.string one_element (meta_key name)
    ≡ some (record { value = encode_list_meta one_meta; seq = 1; expire_ts = none })
unfolding same_bytes encode_meta_key put_u16_len be_bytes
one_element-entry = refl

one_element-Span : Span one_element name 1 one_meta (codes "a" ∷ [])
one_element-Span =
    let (_, l) = ensures_ok list_push-ListAt_example one_element-list_push in
    let same_kv : l.kv ≡ record { value = encode_list_meta one_meta; seq = 1; expire_ts = none } =
      cc (l.there, one_element-entry) in
    let same : l.meta ≡ one_meta = cc (l.decodes, one_element-decode, same_kv) in
    subst (λ m. Span one_element name m.version m (codes "a" ∷ [])) same l.span

one_element-get_meta : get_meta list_meta name one_element ≡ (ok (some one_meta), one_element)
unfolding get_meta read_entry is_expired same_bytes encode_meta_key put_u16_len be_bytes type_code
    encode_list_meta decode_list_meta get_be be_value
one_element-get_meta = refl

list_pop-PopLeaves_example :
    Ensures true
      (λ r w. (r ≡ some (codes "a" ∷ [])) × PopLeaves name [] w)
      (list_pop name (some 3) true one_element)
unfolding pop_all
list_pop-PopLeaves_example =
    list_pop-PopLeaves name true (some 3) (codes "a" ∷ []) one_meta one_element one_element refl
      one_element-get_meta (one_element-Span, omega arith, omega arith, omega arith) (omega arith)
