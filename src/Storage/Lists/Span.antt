-- ===== src/Storage/Lists/Span.antt =====
-- The elements of a list at consecutive sequence numbers (nimbis-storage/src/storage_list.rs).
use nimbis.Prelude.{
  ℕ, suc, ◌+◌, ◌<◌, ◌≤◌, ◌^◌, ◌≡◌, ◌≢◌, ◌∙◌, refl, sym, ap, Bool, true, false, Bytes, List, [], ◌∷◌,
  ◌++◌, arith, append-nil, leb, length, Option, none, some, inl, inr, Bool-cases,
}
use nimbis.Resp.Utils.{same_bytes}
use nimbis.Storage.BytesEq.{same_bytes_of_ne}
use nimbis.Storage.BigEndian.{be_bytes, get_be, get_be-be_bytes}
use nimbis.Storage.DataType.{DataType}
use nimbis.Storage.Keys.{encode_list_element_key}
use nimbis.Storage.Meta.{ListMetaValue}
use nimbis.Storage.Database.{Db, KeyValue}
use nimbis.Storage.Elements.{current_value}
use nimbis.Storage.Engine.{World}
use nimbis.Storage.Engine.Entries.{entry}
use nimbis.Storage.Keys.Named.{same_user_key_inj}
use nimbis.Storage.Lists.{element_key}

-- What a push does to the elements.
abbrev pub push_one : Bool → Bytes → List Bytes → List Bytes
push_one true x es = x ∷ es
push_one false x es = es ++ x ∷ []

abbrev pub push_all : Bool → List Bytes → List Bytes → List Bytes
push_all is_left [] es = es
push_all is_left (x ∷ xs) es = push_all is_left xs (push_one is_left x es)

pub element_keys_apart :
    (key : Bytes) (a b : ℕ)
    → a < 2 ^ 64
    → b < 2 ^ 64
    → a ≢ b
    → same_bytes (element_key key a) (element_key key b) ≡ false
unfolding encode_list_element_key
element_keys_apart key a b h k n = same_bytes_of_ne _ _ λ e.
    let same : be_bytes 8 a ≡ be_bytes 8 b =
      same_user_key_inj key (be_bytes 8 a) (be_bytes 8 b) e in
    n (sym (number a h) ∙ ap (get_be 8) same ∙ number b k)
  where
    number : (c : ℕ) → c < 2 ^ 64 → get_be 8 (be_bytes 8 c) ≡ c
    number c h = rw append-nil at (get_be-be_bytes 8 c [] h)

module _ {D E : Type 0} {db : Db D E} where
  abbrev pub at : World db → Bytes → ℕ → Option KeyValue
  at w key seq = entry DataType.list w (element_key key seq)

  -- The elements `es` stand at the sequence numbers from `head` on, in the generation `version`.
  abbrev pub Elements : World db → Bytes → ℕ → ℕ → List Bytes → Type 0
  Elements w key version head [] = Unit
  Elements w key version head (x ∷ es) =
      (current_value version (at w key head) ≡ some x) × Elements w key version (suc head) es

  abbrev pub AreLasting : World db → Bytes → Type 0
  AreLasting w key = (seq : ℕ) (kv : KeyValue) → at w key seq ≡ some kv → kv.expire_ts ≡ none

  -- The metadata `m` is that of the elements `es`.
  pub record Span (w : World db) (key : Bytes) (version : ℕ) (m : ListMetaValue) (es : List Bytes)
      : Type 0 where
    pub lasting : AreLasting w key
    pub len : m.len ≡ length es
    pub tail : m.tail ≡ m.head + length es
    pub bound : m.tail < 2 ^ 64
    pub elements : Elements w key version m.head es

  pub elements_same :
      (w w' : World db) (key : Bytes) (version head : ℕ) (es : List Bytes)
      → ((seq : ℕ) → head ≤ seq → seq < head + length es → at w' key seq ≡ at w key seq)
      → Elements w key version head es
      → Elements w' key version head es
  elements_same w w' key version head [] same e = tt
  elements_same w w' key version head (x ∷ es) same (first, rest) = (
    ap (current_value version) (same head (omega arith) (omega arith)) ∙ first,
    elements_same w w' key version (suc head) es (λ seq h k. same seq (omega arith) (omega arith))
        rest,
  )

  pub elements_snoc :
      (w : World db) (key : Bytes) (version head : ℕ) (es : List Bytes) (x : Bytes)
      → Elements w key version head es
      → current_value version (at w key (head + length es)) ≡ some x
      → Elements w key version head (es ++ x ∷ [])
  elements_snoc w key version head [] x e last =
      let same : head + 0 ≡ head = omega arith in
      (ap (λ n. current_value version (at w key n)) (sym same) ∙ last, tt)
  elements_snoc w key version head (y ∷ es) x (first, rest) last =
      let same : head + suc (length es) ≡ suc head + length es = omega arith in
      (
        first,
        elements_snoc w key version (suc head) es x rest
            (ap (λ n. current_value version (at w key n)) (sym same) ∙ last),
      )

  -- Some element is current, so the generation is older than the next number.
  pub Span-older :
      (w : World db) (key : Bytes) (version n : ℕ) (m : ListMetaValue) (es : List Bytes)
      → Span w key version m es
      → 0 < length es
      → ((j : Bytes) (kv : KeyValue) → entry DataType.list w j ≡ some kv → kv.seq < n)
      → version ≤ n
  Span-older w key version n m [] s h newer = absurd (omega arith)
  Span-older w key version n m (x ∷ es) s h newer =
      current_le version n x (at w key m.head) s.elements.0 (newer (element_key key m.head))
    where
      current_le :
          (version n : ℕ) (x : Bytes) (r : Option KeyValue)
          → current_value version r ≡ some x
          → ((kv : KeyValue) → r ≡ some kv → kv.seq < n)
          → version ≤ n
      current_le version n x none c h = cc
      current_le version n x (some kv) c h = elim (Bool-cases (leb version kv.seq)) [
        | inl e ↦ let old = h kv refl in ground arith
        | inr e ↦ cc (rw e at c)
      ]
