-- ===== src/Tests/HashTests.antt =====
-- The theorem on lib/kernel/hash.c at a table of numbers that are equal if they have the same last digit.
use eda.Prelude.{◌%◌, ◌≡◌, refl, true, [], some, ltb, arith}
use eda.Hash.{Hash, hash_clear, hash_init, hash_insert, hash_replace, hash_delete, hash_find}
use eda.Hash.Table.{IsHash, hash_init-Starts}
use eda.Hash.Update.{Inserts, Replaces, Deletes, hash_insert-Inserts, IsHash-insert}

abbrev nothing : Hash
nothing = hash_clear (record {
  elem_cnt = 0;
  bucket_cnt = 4;
  buckets = λ i. [];
  hash = λ e. e % 10;
  less = λ a b. ltb (a % 10) (b % 10);
})

nothing-IsHash : IsHash nothing
unfolding hash_init
nothing-IsHash =
    (hash_init-Starts (λ e. e % 10) (λ a b. ltb (a % 10) (b % 10))
      (λ n b. record {
        hashed = λ x y u. ground (arith, u);
        self = λ x. ground arith;
        trans = λ x y z u v. ground (arith, u, v);
      })).0

-- 17 and 21
abbrev two : Hash
two = (hash_insert (hash_insert nothing 17 true).1 21 true).1

two-IsHash : IsHash two
two-IsHash =
    IsHash-insert (hash_insert nothing 17 true).1 21 true
      (IsHash-insert nothing 17 true nothing-IsHash)

finds_equal : hash_find two 27 ≡ some 17
unfolding hash_find hash_insert hash_clear eda.Hash.find_elem eda.Hash.find_bucket eda.Hash.rehash
    eda.Hash.new_bucket_cnt eda.Hash.power_loop eda.Hash.move_loop eda.Hash.move_bucket
finds_equal = refl

hash_insert-Inserts_example :
    Inserts two 27 (hash_insert two 27 true)
    × Replaces two 27 (hash_replace two 27 true)
    × Deletes two 27 (hash_delete two 27 true)
hash_insert-Inserts_example = hash_insert-Inserts two 27 true two-IsHash
