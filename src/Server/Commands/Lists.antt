-- ===== src/Server/Commands/Lists.antt =====
-- nimbis/src/cmd: cmd_lpush.rs, cmd_rpush.rs, cmd_lpop.rs, cmd_rpop.rs, cmd_llen.rs, cmd_lrange.rs.
use nimbis.Prelude.{
  ℕ, Bool, true, false, Bytes, List, [], ◌∷◌, ◌==◌, ltb, codes, length, if◌then◌else◌, Option, none,
  some, Result, ok, err,
}
use nimbis.Prelude.Int.{pos, negsuc}
use nimbis.Resp.Types.{RespValue}
use nimbis.Resp.External.{External}
use nimbis.Storage.Engine.{Action, StorageError}
use nimbis.Storage.Database.{Db}
use nimbis.Server.Platform.{Texts, DatabaseTexts, show_storage_error, parse_signed, parse_unsigned}
use nimbis.Server.Commands.{
  Cmd, Task, give, ◌>>=◌, arg, args_from_one, on_storage, reply_or_error, reply_len, reply_array,
  reply_error, parse_int,
}
use nimbis.Storage.Lists
use nimbis.Server.Config.Setup.{max_u64}

-- One element, or all of them if a count was given, or null if there are none.
abbrev pub reply_popped : Bool → List Bytes → RespValue
reply_popped single [] = RespValue.null
reply_popped true (e ∷ es) = RespValue.bulk_string e
reply_popped false (e ∷ es) = reply_array (e ∷ es)

abbrev pub some_count : Result Bytes ℕ → Result Bytes (Option ℕ)
some_count (ok n) = ok (some n)
some_count (err e) = err e

abbrev pub read_count : Bytes → Result Bytes (Option ℕ)
read_count text = some_count (parse_int (parse_unsigned max_u64) text)

-- The second argument, as a `usize`, if there is one.
module _ {D E : Type 0} {db : Db D E} where
  abbrev pub pop_count : List Bytes → Task db (Result Bytes (Option ℕ))
  pop_count args =
      if ltb 1 (length args) then (do text ← arg args 1; give (read_count text)) else give (ok none)

module _ {D E : Type 0} {db : Db D E} ⦃t : Texts⦄ ⦃d : DatabaseTexts E⦄ where
  -- The reply to the result of a pop, or its panic.
  abbrev pub reply_pop : Bool → Result (StorageError E) (Option (List Bytes)) → Task db RespValue
  reply_pop single (ok none) s = none
  reply_pop single (ok (some elements)) s = some (reply_popped single elements, s)
  reply_pop single (err e) s = some (reply_error (show_storage_error e), s)

  abbrev pub pop_with :
      (Option ℕ → Action db (Option (List Bytes)))
      → Bool
      → Result Bytes (Option ℕ)
      → Task db RespValue
  pop_with pop single (err e) = give (reply_error e)
  pop_with pop single (ok n) = on_storage (pop n) >>= reply_pop single

  unfoldable pub cmd_lpush : Cmd db
  unfolding arg show_storage_error
  cmd_lpush = record {
    cmd_meta = record { name = codes "LPUSH"; arity = negsuc 2 };
    do_cmd = λ args ctx. do
      key ← arg args 0
      elements ← args_from_one args
      len ← on_storage (Lists.lpush key elements)
      give (reply_or_error reply_len len);
  }

  unfoldable pub cmd_rpush : Cmd db
  unfolding arg show_storage_error
  cmd_rpush = record {
    cmd_meta = record { name = codes "RPUSH"; arity = negsuc 2 };
    do_cmd = λ args ctx. do
      key ← arg args 0
      elements ← args_from_one args
      len ← on_storage (Lists.rpush key elements)
      give (reply_or_error reply_len len);
  }

  unfoldable pub cmd_lpop : ⦃x : External⦄ → Cmd db
  unfolding arg show_storage_error parse_int parse_unsigned
  cmd_lpop = record {
    cmd_meta = record { name = codes "LPOP"; arity = negsuc 1 };
    do_cmd = λ args ctx. do
      key ← arg args 0
      count ← pop_count args
      pop_with (Lists.lpop key) (length args == 1) count;
  }

  unfoldable pub cmd_rpop : ⦃x : External⦄ → Cmd db
  unfolding arg show_storage_error parse_int parse_unsigned
  cmd_rpop = record {
    cmd_meta = record { name = codes "RPOP"; arity = negsuc 1 };
    do_cmd = λ args ctx. do
      key ← arg args 0
      count ← pop_count args
      pop_with (Lists.rpop key) (length args == 1) count;
  }

  unfoldable pub cmd_llen : Cmd db
  unfolding arg show_storage_error
  cmd_llen = record {
    cmd_meta = record { name = codes "LLEN"; arity = pos 2 };
    do_cmd = λ args ctx. do
      key ← arg args 0
      len ← on_storage (Lists.llen key)
      give (reply_or_error reply_len len);
  }

  unfoldable pub cmd_lrange : Cmd db
  unfolding arg show_storage_error parse_int parse_signed
  cmd_lrange = record {
    cmd_meta = record { name = codes "LRANGE"; arity = pos 4 };
    do_cmd = λ args ctx. do
      key ← arg args 0
      first ← arg args 1
      elim (parse_int parse_signed first) [
        | err e ↦ give (reply_error e)
        | ok start ↦ do
          last ← arg args 2
          elim (parse_int parse_signed last) [
            | err e ↦ give (reply_error e)
            | ok stop ↦ do
              elements ← on_storage (Lists.lrange key start stop)
              give (reply_or_error reply_array elements)
          ]
      ];
  }
