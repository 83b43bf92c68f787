-- ===== src/Server/Commands/Bounds/Scored.antt =====
-- The indices of the commands of nimbis/src/cmd on sorted sets.
use nimbis.Prelude.{◌≢◌, refl, Bytes, List, [], ◌∷◌, arith, none}
use nimbis.Resp.External.{External}
use nimbis.Storage.Database.{Db}
use nimbis.Storage.Zsets.{MapOrder}
use nimbis.Server.Platform.{Texts, DatabaseTexts}
use nimbis.Server.Commands.{CmdContext, Shared, arg, args_from_one}
use nimbis.Server.Commands.Bounds.{IsSafe, one_required, two_required, three_required}
use nimbis.Server.Commands.Zsets.{cmd_zadd, cmd_zrange, cmd_zscore, cmd_zrem, cmd_zcard}

module _ {D E : Type 0} {db : Db D E} ⦃t : Texts⦄ ⦃d : DatabaseTexts E⦄ ⦃x : External⦄
    ⦃o : MapOrder⦄ where
  pub zadd-IsSafe : IsSafe (cmd_zadd {db = db})
  unfolding cmd_zadd arg args_from_one
  zadd-IsSafe = three_required cmd_zadd refl λ a b c args ctx s. ground arith

  zrange_with_option :
      (a b c : Bytes) (args : List Bytes) (ctx : CmdContext) (s : Shared db)
      → (cmd_zrange {db = db}).do_cmd (a ∷ b ∷ c ∷ args) ctx s ≢ none
  unfolding cmd_zrange arg
  zrange_with_option a b c [] ctx s = ground arith
  zrange_with_option a b c (e ∷ args) ctx s = ground arith

  pub zrange-IsSafe : IsSafe (cmd_zrange {db = db})
  unfolding cmd_zrange
  zrange-IsSafe = three_required cmd_zrange refl zrange_with_option

  pub zscore-IsSafe : IsSafe (cmd_zscore {db = db})
  unfolding cmd_zscore arg args_from_one
  zscore-IsSafe = two_required cmd_zscore refl λ a b args ctx s. cc

  pub zrem-IsSafe : IsSafe (cmd_zrem {db = db})
  unfolding cmd_zrem arg args_from_one
  zrem-IsSafe = two_required cmd_zrem refl λ a b args ctx s. cc

  pub zcard-IsSafe : IsSafe (cmd_zcard {db = db})
  unfolding cmd_zcard arg args_from_one
  zcard-IsSafe = one_required cmd_zcard refl λ a args ctx s. cc
