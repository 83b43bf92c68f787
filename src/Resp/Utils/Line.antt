-- ===== src/Resp/Utils/Line.antt =====
-- What `find_crlf` and `peek_line` of nimbis-resp/src/utils.rs return.
use mathlib.Core.Option
use nimbis.Prelude.{
  ℕ, zero, suc, ◌+◌, ◌≤◌, ◌<◌, ◌≡◌, refl, ap, ◌∙◌, true, false, ◌&&◌, Option, none, some, [], ◌∷◌,
  ◌++◌, arith, Bytes, length, get_or, take, drop, ltb, ◌==◌, if◌then◌else◌, take-append,
  take-append_le, length-take_le, inl, inr, Option-cases, Bool-cases,
}
use nimbis.Resp.External.{External}
use nimbis.Resp.Utils.{cr, lf, scan_crlf, find_crlf, peek_line}

-- The reference: the first place where `\r` and `\n` stand in a row.
unfoldable pub line_end : Bytes → Option ℕ
line_end [] = none
line_end (c ∷ []) = none
line_end (c ∷ d ∷ s) = if c == cr && d == lf then some 0 else Option.map suc (line_end (d ∷ s))

-- `n` more.
abbrev shift : ℕ → Option ℕ → Option ℕ
shift n = Option.map (λ i. n + i)

drop_next : (n : ℕ) (xs : Bytes) {c : ℕ} {s : Bytes} → drop n xs ≡ c ∷ s → drop (n + 1) xs ≡ s
drop_next zero [] h = cc
drop_next zero (y ∷ xs) h = cc
drop_next (suc n) [] h = cc
drop_next (suc n) (y ∷ xs) h =
    let e : suc n + 1 ≡ suc (n + 1) = omega arith in rw e (drop_next n xs h)

get_or_next :
    (n : ℕ) (xs : Bytes) {c : ℕ} {s : Bytes}
    → drop n xs ≡ c ∷ s
    → get_or xs (n + 1) 0 ≡ get_or s 0 0
get_or_next zero [] h = cc
get_or_next zero (y ∷ xs) h = cc
get_or_next (suc n) [] h = cc
get_or_next (suc n) (y ∷ xs) h =
    let e : suc n + 1 ≡ suc (n + 1) = omega arith in rw e (get_or_next n xs h)

length_next :
    (n : ℕ) (xs : Bytes) {c : ℕ} {s : Bytes} → drop n xs ≡ c ∷ s → n + 1 + length s ≡ length xs
length_next zero [] h = cc
length_next zero (y ∷ xs) h = omega (arith, ap length h)
length_next (suc n) [] h = cc
length_next (suc n) (y ∷ xs) h = omega (arith, length_next n xs h)

module _ ⦃x : External⦄ where
  -- A byte other than `\r` is passed over.
  scan_over :
      (f : ℕ) (buf : Bytes) (n c : ℕ) (s : Bytes)
      → drop n buf ≡ c ∷ s
      → (c == cr) ≡ false
      → scan_crlf (suc f) buf n ≡ scan_crlf (suc f) buf (n + 1)
  unfolding scan_crlf
  scan_over f buf n c s h h' = elim (Option-cases (x.memchr cr s)) [
    | inl e ↦ rw (h, drop_next n buf h, x.memchr-cons cr c s, h', e, scan_crlf)
    | inr (k, e) ↦
        let p : n + suc k ≡ n + 1 + k = omega arith in
        rw (h, drop_next n buf h, x.memchr-cons cr c s, h', e, p, scan_crlf)
  ]

  next_is_lf :
      (buf : Bytes) (n c : ℕ) (s : Bytes)
      → drop n buf ≡ c ∷ s
      → (ltb (n + 1) (length buf) && get_or buf (n + 1) 0 == lf) ≡ (get_or s 0 0 == lf)
  next_is_lf buf n c [] h = rw (get_or_next n buf h) (ground arith)
  next_is_lf buf n c (d ∷ s) h = rw (get_or_next n buf h) (ground (arith, length_next n buf h))

  -- At `\r` the search ends or goes on behind it.
  scan_at :
      (f : ℕ) (buf : Bytes) (n c : ℕ) (s : Bytes)
      → drop n buf ≡ c ∷ s
      → (c == cr) ≡ true
      → scan_crlf (suc f) buf n ≡ (if get_or s 0 0 == lf then some n else scan_crlf f buf (n + 1))
  unfolding scan_crlf
  scan_at f buf n c s h h' =
      let p : n + 0 ≡ n = omega arith in
      rw (h, x.memchr-cons cr c s, h', p, next_is_lf buf n c s h, scan_crlf)

  scan-line_end :
      (s : Bytes) (f : ℕ) (buf : Bytes) (n : ℕ)
      → drop n buf ≡ s
      → length s < f
      → scan_crlf f buf n ≡ shift n (line_end s)
  unfolding line_end
  scan-line_end s zero buf n h b = absurd (omega arith)
  scan-line_end [] (suc f) buf n h b = unfold scan_crlf in rw (h, x.memchr-nil cr, scan_crlf)
  scan-line_end (c ∷ []) (suc f) buf n h b = elim (Bool-cases (c == cr)) [
    | inl e ↦
        scan_at f buf n c [] h e ∙ scan-line_end [] f buf (n + 1) (drop_next n buf h) (omega arith)
    | inr e ↦
        scan_over f buf n c [] h e
        ∙ scan-line_end [] (suc f) buf (n + 1) (drop_next n buf h) (omega arith)
  ]
  scan-line_end (c ∷ d ∷ s) (suc f) buf n h b = elim (Bool-cases (c == cr)) [
    | inl e ↦ ground (
      arith,
      scan_at f buf n c (d ∷ s) h e,
      scan-line_end (d ∷ s) f buf (n + 1) (drop_next n buf h),
    )
    | inr e ↦ ground (
      arith,
      scan_over f buf n c (d ∷ s) h e,
      scan-line_end (d ∷ s) (suc f) buf (n + 1) (drop_next n buf h),
    )
  ]

  -- The search finds the first CRLF.
  pub find_crlf-line_end : (s : Bytes) → find_crlf s ≡ line_end s
  unfolding find_crlf
  find_crlf-line_end s =
      ground (arith, scan-line_end s (length s + 1) s 0 refl, Option-cases (line_end s))

-- A text without CRLF, so that it can stand in a line.
abbrev pub IsLine : Bytes → Type 0
IsLine l = line_end l ≡ none

pub line_end-append_crlf :
    (l rest : Bytes) → IsLine l → line_end (l ++ (cr ∷ lf ∷ rest)) ≡ some (length l)
unfolding line_end
line_end-append_crlf [] rest h = refl
line_end-append_crlf (c ∷ []) rest h = ground arith
line_end-append_crlf (c ∷ d ∷ l) rest h =
    ground (arith, line_end-append_crlf (d ∷ l) rest, Option-cases (line_end (d ∷ l)))

pub line_end-append : (s more : Bytes) (n : ℕ) → line_end s ≡ some n → line_end (s ++ more) ≡ some n
unfolding line_end
line_end-append [] more n h = cc
line_end-append (c ∷ []) more n h = cc
line_end-append (c ∷ d ∷ s) more zero h =
    ground (arith, line_end-append (d ∷ s) more 0, Option-cases (line_end (d ∷ s)))
line_end-append (c ∷ d ∷ s) more (suc n) h =
    ground (arith, line_end-append (d ∷ s) more n, Option-cases (line_end (d ∷ s)))

pub line_end_bound : (s : Bytes) (n : ℕ) → line_end s ≡ some n → n + 2 ≤ length s
unfolding line_end
line_end_bound [] n h = cc
line_end_bound (c ∷ []) n h = cc
line_end_bound (c ∷ d ∷ s) zero h = omega arith
line_end_bound (c ∷ d ∷ s) (suc n) h =
    ground (arith, line_end_bound (d ∷ s) n, Option-cases (line_end (d ∷ s)))

module _ ⦃x : External⦄ where
  peek_line_at : (s : Bytes) {n : ℕ} → line_end s ≡ some n → peek_line s ≡ some (take n s, n + 2)
  unfolding peek_line
  peek_line_at s h = rw (find_crlf-line_end s, h)

  peek_line-none : (s : Bytes) → line_end s ≡ none → peek_line s ≡ none
  unfolding peek_line
  peek_line-none s h = rw (find_crlf-line_end s, h)

  -- A line in front of the rest of the buffer is found whole.
  pub peek_line-line :
      (l rest : Bytes) → IsLine l → peek_line (l ++ (cr ∷ lf ∷ rest)) ≡ some (l, length l + 2)
  peek_line-line l rest h = cc (
    peek_line_at (l ++ (cr ∷ lf ∷ rest)) (line_end-append_crlf l rest h),
    take-append l (cr ∷ lf ∷ rest),
  )

  -- More input does not change a line that was found.
  pub peek_line-append :
      (s more : Bytes) {p : Bytes × ℕ} → peek_line s ≡ some p → peek_line (s ++ more) ≡ some p
  peek_line-append s more {p} h = elim (Option-cases (line_end s)) [
    | inl e ↦ cc (h, peek_line-none s e)
    | inr (n, e) ↦ cc (
      h,
      peek_line_at s e,
      peek_line_at (s ++ more) (line_end-append s more n e),
      take-append_le n s more (omega (arith, line_end_bound s n e)),
    )
  ]

  pub peek_line_bound :
      (s : Bytes) {l : Bytes} {n : ℕ}
      → peek_line s ≡ some (l, n)
      → (length l + 2 ≡ n) × (n ≤ length s)
  peek_line_bound s {l} {n} h = elim (Option-cases (line_end s)) [
    | inl e ↦ cc (h, peek_line-none s e)
    | inr (k, e) ↦ ground (arith, h, peek_line_at s e, line_end_bound s k e, length-take_le k s)
  ]

-- What is left behind a line.
pub drop-line : (l rest : Bytes) → drop (length l + 2) (l ++ (cr ∷ lf ∷ rest)) ≡ rest
drop-line [] rest = refl
drop-line (c ∷ l) rest =
    let e : suc (length l) + 2 ≡ suc (length l + 2) = omega arith in rw e (drop-line l rest)
