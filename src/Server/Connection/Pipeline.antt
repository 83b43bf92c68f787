-- ===== src/Server/Connection/Pipeline.antt =====
-- A read with whole commands through `ClientConnection::run` (nimbis/src/client.rs): the parser, the commands
-- and the replies together.
use nimbis.Server.Commands.Bounds.{PopHasRoom}
use nimbis.Prelude.{
  All, ℕ, zero, suc, ◌+◌, ◌<◌, ◌≡◌, ◌≢◌, refl, sym, ◌∙◌, ap, Bytes, List, [], ◌∷◌, ◌++◌,
  append_assoc, append-nil, arith, length, some, ok, subst, inl, inr, Option-cases,
}
use nimbis.Resp.Types.{RespValue}
use nimbis.Resp.External.{External}
use nimbis.Resp.Encode.{encode}
use nimbis.Resp.Parser.{parse, parse_loop, parse_step, with_root, complete, needs_more}
use nimbis.Resp.Parser.Frames.{Frame, root}
use nimbis.Resp.Parser.Advance.{parse_advances}
use nimbis.Resp.RoundTrip.Encodable.{IsEncodable}
use nimbis.Resp.RoundTrip.Whole.{parse-encode}
use nimbis.Storage.Database.{Db}
use nimbis.Storage.Zsets.{MapOrder}
use nimbis.Server.Platform.{Texts, DatabaseTexts}
use nimbis.Server.Config.{Support}
use nimbis.Server.Commands.{CmdContext, Shared, ParsedCmd, try_from}
use nimbis.Server.Connection.{
  ReadResult, read_bytes, write_done, Socket, commands, gather, Progress, execute_command,
  answer_all, after_gather, run,
}
use nimbis.Server.Connection.Total.{execute_command_total}

-- A parser between two values.
abbrev pub IsFresh : List Frame → Type 0
IsFresh frames = with_root frames ≡ root ∷ []

-- Values that can be encoded, each of them the command beside it.
abbrev pub AreCommands : ⦃x : External⦄ ⦃t : Texts⦄ → List RespValue → List ParsedCmd → Type 0
AreCommands [] [] = Unit
AreCommands (v ∷ vs) (c ∷ cs) = IsEncodable v × (try_from v ≡ ok c) × AreCommands vs cs
AreCommands _ _ = ⊥

unfoldable pub encode_all : ⦃x : External⦄ → List RespValue → Bytes
unfolding encode
encode_all [] = []
encode_all (v ∷ vs) = encode v ++ encode_all vs

module _ ⦃x : External⦄ where
  parse-IsFresh :
      (frames : List Frame) (buffer : Bytes)
      → IsFresh frames
      → parse frames buffer ≡ parse [] buffer
  unfolding parse
  parse-IsFresh frames buffer h = rw h refl

  parse-nil : parse [] [] ≡ some (needs_more, root ∷ [], [])
  unfolding parse parse_loop parse_step
  parse-nil = refl

  encode-ne-nil : (v : RespValue) (rest : Bytes) → IsEncodable v → encode v ++ rest ≢ []
  encode-ne-nil v rest h e =
      let got = subst (λ b. parse [] b ≡ some (complete v, [], rest)) e (parse-encode v rest h) in
      cc (got, parse-nil)

  module _ ⦃t : Texts⦄ where
    gather_values :
        (f : ℕ) (vs : List RespValue) (cs before : List ParsedCmd) (frames : List Frame)
        → IsFresh frames
        → AreCommands vs cs
        → length (encode_all vs) < f
        → gather f before frames (encode_all vs) ≡ some (commands (before ++ cs) (root ∷ []) [])
    unfolding gather encode_all
    gather_values zero vs cs before frames h a l = absurd (omega arith)
    gather_values (suc f) [] [] before frames h a l =
        rw (parse-IsFresh frames [] h, parse-nil, append-nil) refl
    gather_values (suc f) [] (c ∷ cs) before frames h a l = absurd a
    gather_values (suc f) (v ∷ vs) [] before frames h a l = absurd a
    gather_values (suc f) (v ∷ vs) (c ∷ cs) before frames h (enc, cmd, a) l =
        let e = parse-encode v (encode_all vs) enc in
        let k = parse_advances [] [] (encode v ++ encode_all vs) (encode_all vs) v e in
        rw (parse-IsFresh frames (encode v ++ encode_all vs) h, e, cmd)
          (gather_values f vs cs (before ++ c ∷ []) [] refl a (omega arith)
            ∙ ap (λ z. some (commands z (root ∷ []) [])) (append_assoc before (c ∷ []) cs))

abbrev pub after_replies : ⦃x : External⦄ → Socket → List RespValue → Socket
after_replies k vs = record k { sent = k.sent ++ encode_all vs; writes = k.writes + length vs }

socket_with :
    (k : Socket) {a b : Bytes} {m n : ℕ}
    → a ≡ b
    → m ≡ n
    → ◌≡◌ {A = Socket} (record k { sent = a; writes = m }) (record k { sent = b; writes = n })
socket_with k p q = λ i. record k { sent = p i; writes = q i }

module _ {D E : Type 0} {db : Db D E} ⦃t : Texts⦄ ⦃d : DatabaseTexts E⦄ ⦃x : External⦄
    ⦃o : MapOrder⦄ ⦃u : Support⦄ (ctx : CmdContext) where
  -- The commands one after the other, each on the state that the one before it left, with their replies.
  pub data Executes : List ParsedCmd → Shared db → List RespValue → Shared db → Type 0 where
    finished : {s : Shared db} → Executes [] s [] s
    executed :
        {c : ParsedCmd} {cs : List ParsedCmd} {s s1 s2 : Shared db} {v : RespValue}
        {vs : List RespValue}
        → execute_command ctx c s ≡ some (v, s1)
        → Executes cs s1 vs s2
        → Executes (c ∷ cs) s (v ∷ vs) s2

  Executes-All :
      (cs : List ParsedCmd) (s : Shared db)
      → All (λ (c : ParsedCmd). PopHasRoom c.name c.args) cs
      → (vs : List RespValue) × (s' : Shared db) × Executes cs s vs s'
  Executes-All [] s room = ([], s, finished)
  Executes-All (c ∷ cs) s (r, room) = elim (Option-cases (execute_command ctx c s)) [
    | inl e ↦ absurd (execute_command_total ctx c s r e)
    | inr ((v, s1), e) ↦ let (vs, s2, h) = Executes-All cs s1 room in (v ∷ vs, s2, executed e h)
  ]

  answer_all-Executes :
      (next : Shared db → Socket → Progress db) (cs : List ParsedCmd) (s s' : Shared db)
      → (vs : List RespValue) (k : Socket) → ((n : ℕ) → k.outcome n ≡ write_done)
      → Executes cs s vs s'
      → answer_all ctx next cs s k ≡ next s' (after_replies k vs)
  unfolding answer_all encode_all
  answer_all-Executes next [] s s' [] k w finished =
      ap (next s) (sym (socket_with k (append-nil k.sent) (omega arith)))
  answer_all-Executes next [] s s' (v ∷ vs) k w h = elim h [ ]
  answer_all-Executes next (c ∷ cs) s s' [] k w h = elim h [ ]
  answer_all-Executes next (c ∷ cs) s s' (v ∷ vs) k w (executed {s1 = s1} e h) =
      rw (e, w k.writes)
        (answer_all-Executes next cs s1 s' vs
            (record k { sent = k.sent ++ encode v; writes = suc k.writes }) w h
          ∙ ap (next s')
              (socket_with k (append_assoc k.sent (encode v) (encode_all vs)) (omega arith)))

  run_read :
      (reads : List ReadResult) (frames : List Frame) (b : Bytes) (s : Shared db) (k : Socket)
      → b ≢ []
      → run ctx (read_bytes b ∷ reads) frames [] s k
        ≡ after_gather ctx (run ctx reads) (gather (length b + 1) [] frames b) s k
  unfolding run
  run_read reads frames [] s k h = absurd (h refl)
  run_read reads frames (c ∷ b) s k h = refl

  -- A read that brings one or more whole commands, in their encoding: they are executed in the order in
  -- which they came, each on the state that the one before it left, their replies are written in that
  -- order, and the connection waits for the next read with an empty buffer. The parser is between two
  -- values before, the writes succeed, and for LPOP and RPOP there is room for a vector of as many elements
  -- as they are asked for.
  pub run-Executes :
      (v : RespValue) (vs : List RespValue) (cs : List ParsedCmd) (reads : List ReadResult)
      (frames : List Frame) (s : Shared db) (k : Socket)
      → AreCommands (v ∷ vs) cs
      → IsFresh frames
      → ((n : ℕ) → k.outcome n ≡ write_done)
      → All (λ (c : ParsedCmd). PopHasRoom c.name c.args) cs
      → (replies : List RespValue) × (s' : Shared db) × Executes cs s replies s'
        × (run ctx (read_bytes (encode_all (v ∷ vs)) ∷ reads) frames [] s k
            ≡ run ctx reads (root ∷ []) [] s' (after_replies k replies))
  unfolding encode_all
  run-Executes v vs [] reads frames s k a fresh w room = absurd a
  run-Executes v vs (c ∷ cs) reads frames s k a fresh w room =
      let (replies, s', h) = Executes-All (c ∷ cs) s room in
      (
        replies,
        s',
        h,
        run_read reads frames (encode_all (v ∷ vs)) s k (encode-ne-nil v (encode_all vs) a.0)
            ∙ rw
                (gather_values (length (encode_all (v ∷ vs)) + 1) (v ∷ vs) (c ∷ cs) [] frames fresh
                  a (omega arith))
                (answer_all-Executes (run ctx reads (root ∷ []) []) (c ∷ cs) s s' replies k w h),
      )
