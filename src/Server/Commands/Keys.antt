-- ===== src/Server/Commands/Keys.antt =====
-- nimbis/src/cmd: cmd_del.rs, cmd_exists.rs, cmd_expire.rs, cmd_ttl.rs, cmd_flushdb.rs, cmd_ping.rs.
use nimbis.Prelude.{
  ℕ, zero, suc, ◌+◌, ◌*◌, ◌/◌, ◌%◌, ◌^◌, Bool, true, false, Bytes, [], ◌∷◌, codes, Option, none,
  some,
}
use nimbis.Prelude.Int.{ℤ, pos, negsuc}
use nimbis.Resp.Types.{RespValue}
use nimbis.Storage.Database.{Db}
use nimbis.Storage.Engine.{StorageError}
use nimbis.Server.Platform.{Texts, DatabaseTexts, show_storage_error, parse_unsigned}
use nimbis.Server.Commands.{
  Cmd, give, ◌>>=◌, arg, on_storage, reply_or_error, reply_ok, reply_count, reply_error,
  not_an_integer,
}
use nimbis.Storage.Strings
use nimbis.Storage.Engine
use nimbis.Storage.Engine.{Action, read_clock, flush_all}
use nimbis.Server.Config.Setup.{max_u64}

abbrev pub reply_flag : Bool → RespValue
reply_flag true = RespValue.integer (pos 1)
reply_flag false = RespValue.integer (pos 0)

-- Whole seconds, -1 for a key that does not expire and -2 for a key that is not there. Division rounds
-- towards zero.
abbrev pub seconds : ℤ → ℤ
seconds (pos ms) = pos (ms / 1000)
seconds (negsuc zero) = negsuc zero
seconds (negsuc (suc n)) = elim ((suc (suc n)) / 1000) [ zero ↦ pos 0 | suc k ↦ negsuc k ]

abbrev pub reply_ttl : Option ℤ → RespValue
reply_ttl none = RespValue.integer (negsuc 1)
reply_ttl (some ms) = RespValue.integer (seconds ms)

-- `now + seconds * 1000`, with the wrap-around of `u64`.
abbrev pub expire_time : ℕ → ℕ → ℕ
expire_time now secs = (now + secs * 1000 % 2 ^ 64) % 2 ^ 64

module _ {D E : Type 0} {db : Db D E} ⦃t : Texts⦄ ⦃d : DatabaseTexts E⦄ where
  abbrev pub expire_in : Bytes → ℕ → Action db Bool
  expire_in key secs = Engine.◌>>=◌ read_clock (λ now. Strings.expire key (expire_time now secs))

  unfoldable pub cmd_del : Cmd db
  unfolding arg show_storage_error
  cmd_del = record {
    cmd_meta = record { name = codes "DEL"; arity = negsuc 1 };
    do_cmd = λ args ctx. do
      deleted ← on_storage (Strings.del args)
      give (reply_or_error reply_count deleted);
  }

  unfoldable pub cmd_exists : Cmd db
  unfolding arg show_storage_error
  cmd_exists = record {
    cmd_meta = record { name = codes "EXISTS"; arity = negsuc 1 };
    do_cmd = λ args ctx. do
      count ← on_storage (Strings.exists_many args)
      give (reply_or_error reply_count count);
  }

  unfoldable pub cmd_expire : Cmd db
  unfolding arg show_storage_error
  cmd_expire = record {
    cmd_meta = record { name = codes "EXPIRE"; arity = pos 3 };
    do_cmd = λ args ctx. do
      key ← arg args 0
      text ← arg args 1
      elim (parse_unsigned max_u64 (t.from_utf8_lossy text)) [
        | none ↦ give (reply_error not_an_integer)
        | some secs ↦ do set ← on_storage (expire_in key secs); give (reply_or_error reply_flag set)
      ];
  }

  unfoldable pub cmd_ttl : Cmd db
  unfolding arg show_storage_error
  cmd_ttl = record {
    cmd_meta = record { name = codes "TTL"; arity = pos 2 };
    do_cmd = λ args ctx. do
      key ← arg args 0
      left ← on_storage (Strings.ttl key)
      give (reply_or_error reply_ttl left);
  }

  unfoldable pub cmd_flushdb : Cmd db
  unfolding arg show_storage_error
  cmd_flushdb = record {
    cmd_meta = record { name = codes "FLUSHDB"; arity = pos 0 };
    do_cmd = λ args ctx. do
      done ← on_storage flush_all
      give (reply_or_error (λ _. reply_ok) done);
  }

  unfoldable pub cmd_ping : Cmd db
  unfolding arg show_storage_error
  cmd_ping = record {
    cmd_meta = record { name = codes "PING"; arity = negsuc 0 };
    do_cmd = λ args ctx. do
      elim args [
        | [] ↦ give (RespValue.simple_string (codes "PONG"))
        | a ∷ more ↦ elim more [
          | [] ↦ give (RespValue.bulk_string a)
          | b ∷ rest ↦ give (reply_error (codes "ERR wrong number of arguments for 'ping' command"))
        ]
      ];
  }
