-- ===== src/Server/Commands/Zsets.antt =====
-- nimbis/src/cmd: cmd_zadd.rs, cmd_zrange.rs, cmd_zscore.rs, cmd_zrem.rs, cmd_zcard.rs.
use nimbis.Prelude.{
  ◌%◌, Bool, true, false, not, Bytes, List, [], ◌∷◌, ◌++◌, ◌==◌, ltb, codes, length, if◌then◌else◌,
  Option, none, some, Result, ok, err,
}
use nimbis.Prelude.Int.{pos, negsuc}
use nimbis.Resp.Types.{RespValue}
use nimbis.Storage.Database.{Db}
use nimbis.Server.Platform.{Texts, DatabaseTexts, show_storage_error, parse_signed}
use nimbis.Server.Commands.{
  Cmd, Task, give, ◌>>=◌, arg, args_from_one, on_storage, reply_or_error, reply_len, reply_array,
  reply_error, not_an_integer,
}
use nimbis.Resp.Types.{F64, is_nan}
use nimbis.Resp.External.{External}
use nimbis.Storage.Zsets
use nimbis.Storage.Zsets.{MapOrder, Element}
use nimbis.Server.Platform.{is_text}

abbrev pub reply_score : ⦃x : External⦄ → Option F64 → RespValue
reply_score none = RespValue.null
reply_score ⦃x⦄ (some score) = RespValue.bulk_string (x.show_f64 score)

abbrev pub score_or_error : Option F64 → Result Bytes F64
score_or_error none = err (codes "ERR value is not a valid float")
score_or_error (some s) =
    if is_nan s then err (codes "ERR resulting score is not a number (NaN)") else ok s

-- The loop of ZADD over the pairs of a score and a member; there is no odd argument left.
unfoldable pub read_scored :
    ⦃x : External⦄ ⦃t : Texts⦄ → List Bytes → List Element → Result Bytes (List Element)
read_scored [] elements = ok elements
read_scored (text ∷ []) elements = ok elements
read_scored ⦃x⦄ ⦃t⦄ (text ∷ member ∷ more) elements =
    elim (score_or_error (x.read_f64 (t.from_utf8_lossy text))) [
      | err e ↦ err e
      | ok score ↦ read_scored more (elements ++ (score, member) ∷ [])
    ]

-- WITHSCORES, in any case, is the only option, and nothing behind it is looked at.
module _ {D E : Type 0} {db : Db D E} ⦃t : Texts⦄ where
  abbrev pub scores_option : List Bytes → Task db (Result Bytes Bool)
  scores_option args =
      if ltb 3 (length args)
      then (do
        opt ← arg args 3
        give (
            if is_text (t.to_uppercase (t.from_utf8_lossy opt)) (codes "WITHSCORES")
            then ok true
            else err (codes "ERR syntax error")))
      else give (ok false)

module _ {D E : Type 0} {db : Db D E} ⦃t : Texts⦄ ⦃d : DatabaseTexts E⦄ where
  unfoldable pub cmd_zadd : ⦃x : External⦄ ⦃o : MapOrder⦄ → Cmd db
  unfolding arg show_storage_error read_scored
  cmd_zadd = record {
    cmd_meta = record { name = codes "ZADD"; arity = negsuc 3 };
    do_cmd = λ args ctx. do
      key ← arg args 0
      pairs ← args_from_one args
      if not (length pairs % 2 == 0)
          then give (reply_error (codes "ERR syntax error"))
          else elim (read_scored pairs []) [
            | err e ↦ give (reply_error e)
            | ok elements ↦ do
              added ← on_storage (Zsets.zadd key elements)
              give (reply_or_error reply_len added)
          ];
  }

  unfoldable pub cmd_zrange : ⦃x : External⦄ → Cmd db
  unfolding arg show_storage_error parse_signed
  cmd_zrange = record {
    cmd_meta = record { name = codes "ZRANGE"; arity = negsuc 3 };
    do_cmd = λ args ctx. do
      key ← arg args 0
      first ← arg args 1
      elim (parse_signed (t.from_utf8_lossy first)) [
        | none ↦ give (reply_error not_an_integer)
        | some start ↦ do
          last ← arg args 2
          elim (parse_signed (t.from_utf8_lossy last)) [
            | none ↦ give (reply_error not_an_integer)
            | some stop ↦ do
              with_scores ← scores_option args
              elim with_scores [
                | err e ↦ give (reply_error e)
                | ok with' ↦ do
                  members ← on_storage (Zsets.zrange key start stop with')
                  give (reply_or_error reply_array members)
              ]
          ]
      ];
  }

  unfoldable pub cmd_zscore : ⦃x : External⦄ → Cmd db
  unfolding arg show_storage_error
  cmd_zscore = record {
    cmd_meta = record { name = codes "ZSCORE"; arity = pos 3 };
    do_cmd = λ args ctx. do
      key ← arg args 0
      member ← arg args 1
      score ← on_storage (Zsets.zscore key member)
      give (reply_or_error reply_score score);
  }

  unfoldable pub cmd_zrem : Cmd db
  unfolding arg show_storage_error
  cmd_zrem = record {
    cmd_meta = record { name = codes "ZREM"; arity = negsuc 2 };
    do_cmd = λ args ctx. do
      key ← arg args 0
      members ← args_from_one args
      removed ← on_storage (Zsets.zrem key members)
      give (reply_or_error reply_len removed);
  }

  unfoldable pub cmd_zcard : Cmd db
  unfolding arg show_storage_error
  cmd_zcard = record {
    cmd_meta = record { name = codes "ZCARD"; arity = pos 2 };
    do_cmd = λ args ctx. do
      key ← arg args 0
      count ← on_storage (Zsets.zcard key)
      give (reply_or_error reply_len count);
  }
