-- ===== src/Server/Commands/Bounds/Collections.antt =====
-- The indices of the commands of nimbis/src/cmd on hashes and lists.
use nimbis.Prelude.{
  ℕ, ◌≡◌, Bool, true, false, codes, length, ltb, Option, some, Result, ok, err, ◌≢◌, refl, Bytes,
  List, [], ◌∷◌, arith, none,
}
use nimbis.Resp.External.{External, bytes_capacity}
use nimbis.Resp.Utils.{same_bytes}
use nimbis.Storage.Database.{Db}
use nimbis.Storage.Engine.{World, Action, StorageError}
use nimbis.Storage.Engine.Rules.{Ensures}
use nimbis.Storage.Lists.{count_or_one, lpop, rpop}
use nimbis.Storage.Lists.Pops.{list_pop_returns}
use nimbis.Server.Platform.{Texts, DatabaseTexts}
use nimbis.Server.Commands.{Shared, arg, args_from_one}
use nimbis.Server.Commands.Bounds.{
  IsSafe, IsSafeIf, PopHasRoom, asked_of, one_required, two_required, three_required,
}
use nimbis.Server.Commands.Hashes.{cmd_hdel, cmd_hget, cmd_hlen, cmd_hmget, cmd_hgetall}
use nimbis.Server.Commands.Lists.{
  cmd_lpush, cmd_rpush, cmd_lpop, cmd_rpop, reply_pop, pop_with, read_count, cmd_llen, cmd_lrange,
}

module _ {D E : Type 0} {db : Db D E} ⦃t : Texts⦄ ⦃d : DatabaseTexts E⦄ where
  pub hdel-IsSafe : IsSafe (cmd_hdel {db = db})
  unfolding cmd_hdel arg args_from_one
  hdel-IsSafe = two_required cmd_hdel refl λ a b args ctx s. cc

  pub hget-IsSafe : IsSafe (cmd_hget {db = db})
  unfolding cmd_hget arg args_from_one
  hget-IsSafe = two_required cmd_hget refl λ a b args ctx s. cc

  pub hlen-IsSafe : IsSafe (cmd_hlen {db = db})
  unfolding cmd_hlen arg args_from_one
  hlen-IsSafe = one_required cmd_hlen refl λ a args ctx s. cc

  pub hmget-IsSafe : IsSafe (cmd_hmget {db = db})
  unfolding cmd_hmget arg args_from_one
  hmget-IsSafe = two_required cmd_hmget refl λ a b args ctx s. cc

  pub hgetall-IsSafe : IsSafe (cmd_hgetall {db = db})
  unfolding cmd_hgetall arg args_from_one
  hgetall-IsSafe = one_required cmd_hgetall refl λ a args ctx s. cc

  pub lpush-IsSafe : IsSafe (cmd_lpush {db = db})
  unfolding cmd_lpush arg args_from_one
  lpush-IsSafe = two_required cmd_lpush refl λ a b args ctx s. cc

  pub rpush-IsSafe : IsSafe (cmd_rpush {db = db})
  unfolding cmd_rpush arg args_from_one
  rpush-IsSafe = two_required cmd_rpush refl λ a b args ctx s. cc

  reply_pop_runs :
      (single : Bool) (r : Result (StorageError E) (Option (List Bytes))) (s : Shared db)
      → r ≢ ok none
      → reply_pop single r s ≢ none
  reply_pop_runs single (ok none) s h = absurd (h refl)
  reply_pop_runs single (ok (some es)) s h = cc
  reply_pop_runs single (err e) s h = cc

  not_panicked :
      (r : Result (StorageError E) (Option (List Bytes)) × World db)
      → Ensures false (λ a w. a ≢ none) r
      → r.0 ≢ ok none
  not_panicked (ok none, w) h = λ e. h.outcome refl
  not_panicked (ok (some es), w) h = cc
  not_panicked (err e, w) h = cc

  -- A pop with a count that was read does not panic if there is room.
  pop_with_runs :
      ⦃x : External⦄ (pop : Option ℕ → Action db (Option (List Bytes))) (single : Bool)
      (count : Result Bytes (Option ℕ)) (s : Shared db)
      → ((n : Option ℕ) (w : World db)
          → x.has_room bytes_capacity (count_or_one n) ≡ true
          → Ensures false (λ a w'. a ≢ none) (pop n w))
      → x.has_room bytes_capacity (asked_of count) ≡ true
      → pop_with pop single count s ≢ none
  pop_with_runs pop single (err e) s h room = cc
  pop_with_runs pop single (ok n) s h room =
      reply_pop_runs single (pop n s.storage).0 _
        (not_panicked (pop n s.storage) (h n s.storage room))

  pub lpop-IsSafe : ⦃x : External⦄ → IsSafeIf (PopHasRoom (codes "LPOP")) (cmd_lpop {db = db})
  unfolding cmd_lpop arg lpop same_bytes
  lpop-IsSafe [] ctx s n room = absurd (omega arith)
  lpop-IsSafe (a ∷ []) ctx s n room =
      pop_with_runs (lpop a) true (ok none) s (λ c w h. list_pop_returns a c true w h) (room refl)
  lpop-IsSafe (a ∷ b ∷ args) ctx s n room =
      let more : ltb 1 (length (a ∷ b ∷ args)) ≡ true = ground arith in
      rw more (
        pop_with_runs (lpop a) _ (read_count b) s (λ c w h. list_pop_returns a c true w h)
          (room refl))

  pub rpop-IsSafe : ⦃x : External⦄ → IsSafeIf (PopHasRoom (codes "RPOP")) (cmd_rpop {db = db})
  unfolding cmd_rpop arg rpop same_bytes
  rpop-IsSafe [] ctx s n room = absurd (omega arith)
  rpop-IsSafe (a ∷ []) ctx s n room =
      pop_with_runs (rpop a) true (ok none) s (λ c w h. list_pop_returns a c false w h) (room refl)
  rpop-IsSafe (a ∷ b ∷ args) ctx s n room =
      let more : ltb 1 (length (a ∷ b ∷ args)) ≡ true = ground arith in
      rw more (
        pop_with_runs (rpop a) _ (read_count b) s (λ c w h. list_pop_returns a c false w h)
          (room refl))

  pub llen-IsSafe : IsSafe (cmd_llen {db = db})
  unfolding cmd_llen arg args_from_one
  llen-IsSafe = one_required cmd_llen refl λ a args ctx s. cc

  pub lrange-IsSafe : IsSafe (cmd_lrange {db = db})
  unfolding cmd_lrange arg args_from_one
  lrange-IsSafe = three_required cmd_lrange refl λ a b c args ctx s. ground arith
