-- ===== src/Tests/Strings.antt =====
-- The string operations of nimbis-storage on databases in memory.
use nimbis.Prelude.{arith, ◌≡◌, refl, true, Bytes, codes, Result, some}
use nimbis.Prelude.Int.{pos, ◌+ℤ◌}
use nimbis.Prelude.Decimal.{print_ℤ}
use nimbis.Storage.Engine.{World, put_entry, StorageError}
use nimbis.Storage.Engine.Rules.{Ensures}
use nimbis.Storage.Strings.{get, set}
use nimbis.Storage.Strings.Stored.{get-set, count-set, count, stepped}
use nimbis.Tests.Memory.{memory_db, empty_world, all_below}

abbrev name : Bytes
name = codes "n"

abbrev after : {A : Type 0} → Result (StorageError Bytes) A × World memory_db → World memory_db
after (r, w) = w

get-set_example :
    Ensures true
      (λ found w. (found ≡ some (codes "v")) × (w ≡ after (set name (codes "v") empty_world)))
      (get name (after (set name (codes "v") empty_world)))
unfolding set put_entry all_below
get-set_example =
    get-set empty_world (after (set name (codes "v") empty_world)) name (codes "v") refl

-- The next number after 9, on a key that was set.
count-set_example :
    Ensures true
      (λ z w.
        (z ≡ stepped true (pos 9))
        × Ensures true (λ found w'. (found ≡ some (print_ℤ z)) × (w' ≡ w)) (get name w))
      (count true name (after (set name (print_ℤ (pos 9)) empty_world)))
unfolding set put_entry all_below ◌+ℤ◌
count-set_example =
    count-set true name (pos 9) empty_world (after (set name (print_ℤ (pos 9)) empty_world))
      (omega arith) (omega arith) refl
