-- ===== src/Hash.antt =====
-- mount/lab2/pintos/src/lib/kernel/hash.c: hash tables with chains. An element is the address of its
-- `struct hash_elem`, NULL is `none`; a bucket is the sequence of its list (lib/kernel/list.c), from the
-- front; `hash` and `less` have their `aux`. `memory` tells whether `malloc` gives memory.
pub mod Moves
pub mod Table
pub mod Update
use Prim.Native.Nat.{bit_and, bit_xor}
use eda.Prelude.{
  ℕ, zero, suc, ◌+◌, ◌-◌, ◌*◌, ◌/◌, ◌%◌, ◌^◌, ◌&&◌, Bool, true, false, not, List, [], ◌∷◌, ◌++◌,
  Option, none, some, ltb, ◌==◌, if◌then◌else◌, Result, ok, ◌>>◌, assert,
}
use eda.Prelude.Members.{update, erase}
use eda.Palloc.{Memory}

-- `struct hash`
pub record Hash : Type 0 where
  pub elem_cnt : ℕ
  pub bucket_cnt : ℕ
  pub buckets : ℕ → List ℕ
  pub hash : ℕ → ℕ
  pub less : ℕ → ℕ → Bool

-- The index of the bucket
unfoldable pub find_bucket : Hash → ℕ → ℕ
find_bucket h e = bit_and (h.hash e) (h.bucket_cnt - 1)

abbrev pub is_equal : Hash → ℕ → ℕ → Bool
is_equal h a b = not (h.less a b) && not (h.less b a)

unfoldable pub find_elem : Hash → List ℕ → ℕ → Option ℕ
find_elem h [] e = none
find_elem h (x ∷ xs) e = if is_equal h x e then some x else find_elem h xs e

abbrev pub insert_elem : Hash → ℕ → ℕ → Hash
insert_elem h bucket e = record h {
  elem_cnt = (h.elem_cnt + 1) % 2 ^ 32;
  buckets = update h.buckets bucket (e ∷ h.buckets bucket);
}

-- `list_remove` takes the element off the bucket it stands in.
abbrev pub remove_elem : Hash → ℕ → Hash
remove_elem h e = record h {
  elem_cnt = (h.elem_cnt + 2 ^ 32 - 1) % 2 ^ 32;
  buckets = λ i. erase e (h.buckets i);
}

abbrev pub turn_off_least_1bit : ℕ → ℕ
turn_off_least_1bit x = bit_and x ((x + 2 ^ 32 - 1) % 2 ^ 32)

abbrev pub is_power_of_2 : ℕ → Bool
is_power_of_2 x = not (x == 0) && turn_off_least_1bit x == 0

-- The loop of `rehash` that looks for a power of 2, in which the number falls
unfoldable pub power_loop : ℕ → ℕ → ℕ
power_loop zero x = x
power_loop (suc fuel) x =
    let rest = power_loop fuel (turn_off_least_1bit x) in if is_power_of_2 x then x else rest

-- `new_bucket_cnt` in `rehash`
unfoldable pub new_bucket_cnt : ℕ → ℕ
new_bucket_cnt elem_cnt = let n = if ltb (elem_cnt / 2) 4 then 4 else elem_cnt / 2 in power_loop n n

-- The elements of an old bucket are pushed to the buckets that the table has for them.
unfoldable pub move_bucket : Hash → (ℕ → List ℕ) → List ℕ → ℕ → List ℕ
move_bucket h buckets [] = buckets
move_bucket h buckets (e ∷ es) =
    let b = find_bucket h e in move_bucket h (update buckets b (e ∷ buckets b)) es

-- The last loop of `rehash`, with `n` old buckets left
unfoldable pub move_loop : ℕ → ℕ → Hash → (ℕ → List ℕ) → (ℕ → List ℕ) → ℕ → List ℕ
move_loop zero i h old buckets = buckets
move_loop (suc n) i h old buckets = move_loop n (i + 1) h old (move_bucket h buckets (old i))

unfoldable pub rehash : Hash → Bool → Hash
rehash h memory =
    let n = new_bucket_cnt h.elem_cnt in
    let h1 = record h { bucket_cnt = n } in
    let moved = record h1 { buckets = move_loop h.bucket_cnt 0 h1 h.buckets (λ i. []) } in
    if n == h.bucket_cnt then h else if memory then moved else h

-- `hash_clear` empties every bucket; what the destructor does to an element is outside the table.
unfoldable pub hash_clear : Hash → Hash
hash_clear h = record h {
  elem_cnt = 0;
  buckets = λ i. if ltb i h.bucket_cnt then [] else h.buckets i;
}

unfoldable pub hash_init : (ℕ → ℕ) → (ℕ → ℕ → Bool) → Bool → Option Hash
hash_init hash less memory =
    if memory
    then some (
        hash_clear
          (record { elem_cnt = 0; bucket_cnt = 4; buckets = λ i. []; hash = hash; less = less }))
    else none

-- `hash_insert` and `hash_replace` behind their search
abbrev pub finish_insert : Hash → ℕ → Bool → Option ℕ → Option ℕ × Hash
finish_insert h new memory none = (none, rehash (insert_elem h (find_bucket h new) new) memory)
finish_insert h new memory (some old) = (some old, rehash h memory)

unfoldable pub hash_insert : Hash → ℕ → Bool → Option ℕ × Hash
hash_insert h new memory =
    finish_insert h new memory (find_elem h (h.buckets (find_bucket h new)) new)

abbrev pub finish_replace : Hash → ℕ → Bool → Option ℕ → Option ℕ × Hash
finish_replace h new memory none = (none, rehash (insert_elem h (find_bucket h new) new) memory)
finish_replace h new memory (some old) =
    (some old, rehash (insert_elem (remove_elem h old) (find_bucket h new) new) memory)

unfoldable pub hash_replace : Hash → ℕ → Bool → Option ℕ × Hash
hash_replace h new memory =
    finish_replace h new memory (find_elem h (h.buckets (find_bucket h new)) new)

unfoldable pub hash_find : Hash → ℕ → Option ℕ
hash_find h e = find_elem h (h.buckets (find_bucket h e)) e

abbrev pub finish_delete : Hash → Bool → Option ℕ → Option ℕ × Hash
finish_delete h memory none = (none, h)
finish_delete h memory (some found) = (some found, rehash (remove_elem h found) memory)

unfoldable pub hash_delete : Hash → ℕ → Bool → Option ℕ × Hash
hash_delete h e memory = finish_delete h memory (find_elem h (h.buckets (find_bucket h e)) e)

abbrev pub hash_size : Hash → ℕ
hash_size h = h.elem_cnt

abbrev pub hash_empty : Hash → Bool
hash_empty h = h.elem_cnt == 0

-- The Fowler-Noll-Vo hash of the bytes at an address
abbrev pub fnv_step : ℕ → ℕ → ℕ
fnv_step hash byte = bit_xor (hash * 16777619 % 2 ^ 32) byte

unfoldable pub bytes_loop : Memory → ℕ → ℕ → ℕ → ℕ
bytes_loop m hash buf zero = hash
bytes_loop m hash buf (suc size) = bytes_loop m (fnv_step hash (m buf)) (buf + 1) size

unfoldable pub hash_bytes : Memory → ℕ → ℕ → Result ℕ
hash_bytes m buf size = assert (not (buf == 0)) >> ok (bytes_loop m 2166136261 buf size)
