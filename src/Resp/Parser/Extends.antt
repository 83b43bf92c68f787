-- ===== src/Resp/Parser/Extends.antt =====
-- What an item of nimbis-resp/src/parser.rs does with more input behind the buffer: nothing else.
use nimbis.Prelude.{
  ℕ, ◌+◌, ◌≤◌, ◌<◌, ◌≡◌, ◌⊎◌, refl, Bool, true, false, not, ◌||◌, ◌∷◌, ◌++◌, some, arith, Bytes,
  length, take, drop, drop-append_le, take-append_le, length-append, length-drop, if◌then◌else◌,
  ltb, ltb-false, lt→ltb, ltb→lt, inl, inr, Bool-cases, Option-cases, ok, err, Result,
}
use nimbis.Prelude.Int.{ℤ}
use nimbis.Resp.Types.{RespValue, ParseError, eq_bytes, invalid_format}
use nimbis.Resp.External.{External}
use nimbis.Resp.Utils.{peek_line, crlf, parse_integer}
use nimbis.Resp.Utils.Line.{peek_line-append, peek_line_bound}
use nimbis.Resp.Parser.Items.{
  Step, parsed, pushed, incomplete, failed, ran_out, parse_line_item, parse_length_item, read_sized,
}

-- Bytes are taken from the front, and one at least for a value or a frame; the rounds are enough.
abbrev pub Shrinks : Bytes → Step → Type 0
Shrinks buf (parsed v rest) = length rest < length buf
Shrinks buf (pushed f rest) = length rest < length buf
Shrinks buf (incomplete rest) = length rest ≤ length buf
Shrinks buf (failed e rest) = length rest ≤ length buf
Shrinks buf ran_out = ⊥

-- The second step is the first with more input behind what it leaves. An incomplete step says nothing.
abbrev pub Extends : Bytes → Step → Step → Type 0
Extends more (parsed v rest) t = t ≡ parsed v (rest ++ more)
Extends more (pushed f rest) t = t ≡ pushed f (rest ++ more)
Extends more (incomplete rest) t = Unit
Extends more (failed e rest) t = t ≡ failed e (rest ++ more)
Extends more ran_out t = Unit

-- An incomplete step takes nothing.
abbrev pub Waits : Bytes → Step → Type 0
Waits buf (incomplete rest) = rest ≡ buf
Waits buf _ = Unit

-- A step for buffers that behaves so at one buffer.
pub record IsSteady (step : Bytes → Step) (buf : Bytes) : Type 0 where
  pub shrinks : Shrinks buf (step buf)
  pub waits : Waits buf (step buf)
  pub extends : (more : Bytes) → Extends more (step buf) (step (buf ++ more))

-- A body behind a length behaves so, wherever the line ends in the buffer.
abbrev pub IsSteadyBody : (Bytes → ℕ → ℤ → Step) → Type 0
IsSteadyBody body =
    (m n : ℕ) (s : Bytes) (z : ℤ) → n ≤ length s → IsSteady (λ b. body b n z) (m ∷ s)

pub length-behind : (m n : ℕ) (s : Bytes) → length (drop (1 + n) (m ∷ s)) < length (m ∷ s)
length-behind m n s = omega (arith, length-drop (1 + n) (m ∷ s))

pub behind-append :
    (m n : ℕ) (s more : Bytes)
    → n ≤ length s
    → drop (1 + n) (m ∷ (s ++ more)) ≡ drop (1 + n) (m ∷ s) ++ more
behind-append m n s more h = drop-append_le (1 + n) (m ∷ s) more (omega arith)

module _ ⦃x : External⦄ where
  line_found-IsSteady :
      (convert : Bytes → Result ParseError RespValue) (m : ℕ) (s l : Bytes) (n : ℕ)
      → peek_line s ≡ some (l, n)
      → (r : Result ParseError RespValue) → convert l ≡ r
      → IsSteady (parse_line_item convert) (m ∷ s)
  unfolding parse_line_item
  line_found-IsSteady convert m s l n e (ok v) c = record {
    shrinks = rw (e, c) (length-behind m n s);
    waits = rw (e, c) tt;
    extends = λ more.
        rw (e, c, peek_line-append s more e, c, behind-append m n s more ((peek_line_bound s e).1));
  }
  line_found-IsSteady convert m s l n e (err f) c = record {
    shrinks = rw (e, c) (omega arith);
    waits = rw (e, c) tt;
    extends = λ more. rw (e, c, peek_line-append s more e, c);
  }

  pub parse_line_item-IsSteady :
      (convert : Bytes → Result ParseError RespValue) (m : ℕ) (s : Bytes)
      → IsSteady (parse_line_item convert) (m ∷ s)
  unfolding parse_line_item
  parse_line_item-IsSteady convert m s = elim (Option-cases (peek_line s)) [
    | inl e ↦ record { shrinks = rw e (omega arith); waits = rw e; extends = λ more. rw e tt }
    | inr (p, e) ↦ line_found-IsSteady convert m s p.0 p.1 e (convert p.0) refl
  ]

  length_found-IsSteady :
      (body : Bytes → ℕ → ℤ → Step) (m : ℕ) (s l : Bytes) (n : ℕ)
      → IsSteadyBody body
      → peek_line s ≡ some (l, n)
      → (r : Result ParseError ℤ) → parse_integer l ≡ r
      → IsSteady (parse_length_item body) (m ∷ s)
  unfolding parse_length_item
  length_found-IsSteady body m s l n h e (ok z) c =
      let b = h m n s z ((peek_line_bound s e).1) in
      record {
        shrinks = rw (e, c) (b.shrinks);
        waits = rw (e, c) (b.waits);
        extends = λ more. rw (e, c, peek_line-append s more e, c) (b.extends more);
      }
  length_found-IsSteady body m s l n h e (err f) c = record {
    shrinks = rw (e, c) (omega arith);
    waits = rw (e, c) tt;
    extends = λ more. rw (e, c, peek_line-append s more e, c);
  }

  pub parse_length_item-IsSteady :
      (body : Bytes → ℕ → ℤ → Step) (m : ℕ) (s : Bytes)
      → IsSteadyBody body
      → IsSteady (parse_length_item body) (m ∷ s)
  unfolding parse_length_item
  parse_length_item-IsSteady body m s h = elim (Option-cases (peek_line s)) [
    | inl e ↦ record { shrinks = rw e (omega arith); waits = rw e; extends = λ more. rw e tt }
    | inr (p, e) ↦ length_found-IsSteady body m s p.0 p.1 h e (parse_integer p.0) refl
  ]

-- A payload is judged by itself, whatever stands behind it.
abbrev pub Judges : (Bytes → Bytes → Step) → Type 0
Judges finish =
    (s : Bytes)
    → ((v : RespValue) × ((r : Bytes) → finish s r ≡ parsed v r))
      ⊎ ((e : ParseError) × ((r : Bytes) → finish s r ≡ failed e r))

abbrev payload_end : (Bytes → Bytes → Step) → Bytes → Bytes → Step
payload_end finish s rest =
    if eq_bytes (take 2 rest) crlf then finish s (drop 2 rest) else failed invalid_format rest

read_sized_enough :
    (finish : Bytes → Bytes → Step) (buf : Bytes) (n k : ℕ)
    → 1 + n + k + 2 ≤ length buf
    → read_sized finish buf n k
      ≡ payload_end finish (take k (drop (1 + n) buf)) (drop k (drop (1 + n) buf))
unfolding read_sized
read_sized_enough finish buf n k h =
    let a : ltb (length buf) (1 + n + k + 2) ≡ false = ltb-false _ _ h in
    let b : ltb (length (drop k (drop (1 + n) buf))) 2 ≡ false =
      ltb-false _ _ (omega (arith, length-drop k (drop (1 + n) buf), length-drop (1 + n) buf)) in
    rw (a, b) (negated (eq_bytes (take 2 (drop k (drop (1 + n) buf))) crlf))
  where
    negated :
        (b : Bool)
        → (if false || not b
            then failed invalid_format (drop k (drop (1 + n) buf))
            else finish (take k (drop (1 + n) buf)) (drop 2 (drop k (drop (1 + n) buf))))
          ≡ (if b
              then finish (take k (drop (1 + n) buf)) (drop 2 (drop k (drop (1 + n) buf)))
              else failed invalid_format (drop k (drop (1 + n) buf)))
    negated true = refl
    negated false = refl

read_sized_short :
    (finish : Bytes → Bytes → Step) (buf : Bytes) (n k : ℕ)
    → length buf < 1 + n + k + 2
    → read_sized finish buf n k ≡ incomplete buf
unfolding read_sized
read_sized_short finish buf n k h = rw (lt→ltb _ _ h)

payload_end-Shrinks :
    (finish : Bytes → Bytes → Step) (s rest buf : Bytes)
    → Judges finish
    → length rest < length buf
    → Shrinks buf (payload_end finish s rest)
payload_end-Shrinks finish s rest buf j h = elim (Bool-cases (eq_bytes (take 2 rest) crlf)) [
  | inl e ↦ elim (j s) [
    | inl (v, f) ↦ rw (e, f (drop 2 rest)) (omega (arith, length-drop 2 rest))
    | inr (v, f) ↦ rw (e, f (drop 2 rest)) (omega (arith, length-drop 2 rest))
  ]
  | inr e ↦ rw e (omega arith)
]

payload_end-Extends :
    (finish : Bytes → Bytes → Step) (s rest more : Bytes)
    → Judges finish
    → 2 ≤ length rest
    → Extends more (payload_end finish s rest) (payload_end finish s (rest ++ more))
payload_end-Extends finish s rest more j h =
    let t = take-append_le 2 rest more h in
    let d = drop-append_le 2 rest more h in
    elim (Bool-cases (eq_bytes (take 2 rest) crlf)) [
      | inl e ↦ elim (j s) [
        | inl (v, f) ↦ rw (t, d, e, f (drop 2 rest)) (f (drop 2 rest ++ more))
        | inr (v, f) ↦ rw (t, d, e, f (drop 2 rest)) (f (drop 2 rest ++ more))
      ]
      | inr e ↦ rw (t, e)
    ]

payload_end-Waits :
    (finish : Bytes → Bytes → Step) (s rest buf : Bytes)
    → Judges finish
    → Waits buf (payload_end finish s rest)
payload_end-Waits finish s rest buf j = elim (Bool-cases (eq_bytes (take 2 rest) crlf)) [
  | inl e ↦ elim (j s) [
    | inl (v, f) ↦ rw (e, f (drop 2 rest)) tt
    | inr (v, f) ↦ rw (e, f (drop 2 rest)) tt
  ]
  | inr e ↦ rw e tt
]

pub read_sized-IsSteady :
    (finish : Bytes → Bytes → Step) (m n : ℕ) (s : Bytes) (k : ℕ)
    → Judges finish
    → IsSteady (λ b. read_sized finish b n k) (m ∷ s)
read_sized-IsSteady finish m n s k j = elim (Bool-cases (ltb (length (m ∷ s)) (1 + n + k + 2))) [
  | inl e ↦
      let p = read_sized_short finish (m ∷ s) n k (ltb→lt _ _ e) in
      record { shrinks = rw p (omega arith); waits = rw p refl; extends = λ more. rw p tt }
  | inr e ↦
      let h : 1 + n + k + 2 ≤ length (m ∷ s) = ground arith in
      let body = drop (1 + n) (m ∷ s) in
      let p = read_sized_enough finish (m ∷ s) n k h in
      let la = length-drop (1 + n) (m ∷ s) in
      let lb = length-drop k (drop (1 + n) (m ∷ s)) in
      record {
        shrinks = rw p (payload_end-Shrinks finish _ _ (m ∷ s) j (omega (arith, la, lb)));
        waits = rw p (payload_end-Waits finish _ _ (m ∷ s) j);
        extends = λ more.
            rw
              (
                p,
                read_sized_enough finish (m ∷ s ++ more) n k
                    (omega (arith, length-append (m ∷ s) more)),
                drop-append_le (1 + n) (m ∷ s) more (omega arith),
                take-append_le k (drop (1 + n) (m ∷ s)) more (omega (arith, la)),
                drop-append_le k (drop (1 + n) (m ∷ s)) more (omega (arith, la)),
              )
              (payload_end-Extends finish _ _ more j (omega (arith, la, lb)));
      }
]
