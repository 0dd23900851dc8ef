-- ===== src/Sorting.antt =====
-- mount/lab2/pintos/src/lib/stdlib.c: heap sort and binary search. An array gives each byte of each element,
-- the first element at 1 as `do_swap` and `do_compare` count; `compare`, an argument as in the source, reads
-- an element as its list of bytes.
pub mod Swap
pub mod Heap
pub mod Heapify
pub mod Sorted
pub mod Search
use eda.Prelude.{
  ℕ, zero, suc, ◌+◌, ◌-◌, ◌*◌, ◌/◌, ◌%◌, ◌^◌, ◌&&◌, ◌||◌, Bool, true, false, not, List, [], ◌∷◌,
  Option, none, some, ltb, leb, ◌==◌, if◌then◌else◌, Result, ok, ◌>>◌, assert,
}
use eda.Prelude.Members.{update}

abbrev pub Array : Type 0
Array = ℕ → ℕ → ℕ

-- What `compare` returns: less than zero, zero, or more
pub data Sign : Type 0 where
  less : Sign
  equal : Sign
  more : Sign

abbrev pub is_less : Sign → Bool
is_less less = true
is_less _ = false

abbrev pub is_more : Sign → Bool
is_more more = true
is_more _ = false

abbrev pub Compare : Type 0
Compare = List ℕ → List ℕ → Sign

-- The first bytes of a block
unfoldable pub bytes_of : ℕ → (ℕ → ℕ) → List ℕ
bytes_of zero f = []
bytes_of (suc n) f = f 0 ∷ bytes_of n (λ i. f (suc i))

abbrev pub elem : Array → ℕ → ℕ → List ℕ
elem array size k = bytes_of size (array k)

abbrev pub set_byte : Array → ℕ → ℕ → ℕ → Array
set_byte array k i v = update array k (update (array k) i v)

-- The body of the loop of `do_swap`
abbrev pub swap_byte : Array → ℕ → ℕ → ℕ → Array
swap_byte array a b i =
    let t = array a i in let array1 = set_byte array a i (array b i) in set_byte array1 b i t

unfoldable pub swap_loop : ℕ → Array → ℕ → ℕ → ℕ → Array
swap_loop zero array a b i = array
swap_loop (suc n) array a b i = swap_loop n (swap_byte array a b i) a b (i + 1)

unfoldable pub do_swap : Array → ℕ → ℕ → ℕ → Array
do_swap array a_idx b_idx size = swap_loop size array a_idx b_idx 0

abbrev pub do_compare : Array → ℕ → ℕ → ℕ → Compare → Sign
do_compare array a_idx b_idx size compare = compare (elem array size a_idx) (elem array size b_idx)

-- `max` in the loop of `heapify`
abbrev pub max_left : Array → ℕ → ℕ → ℕ → Compare → ℕ
max_left array i cnt size compare =
    let left = 2 * i % 2 ^ 32 in
    if leb left cnt && is_more (do_compare array left i size compare) then left else i

abbrev pub max_right : Array → ℕ → ℕ → ℕ → Compare → ℕ → ℕ
max_right array i cnt size compare max =
    let right = (2 * i + 1) % 2 ^ 32 in
    if leb right cnt && is_more (do_compare array right max size compare) then right else max

-- The loop of `heapify`, in which `i` grows and has no children from `cnt` on
unfoldable pub heapify_loop : ℕ → Array → ℕ → ℕ → ℕ → Compare → Array
heapify_loop zero array i cnt size compare = array
heapify_loop (suc fuel) array i cnt size compare =
    let max = max_right array i cnt size compare (max_left array i cnt size compare) in
    let rest = heapify_loop fuel (do_swap array i max size) max cnt size compare in
    if max == i then array else rest

unfoldable pub heapify : Array → ℕ → ℕ → ℕ → Compare → Array
heapify array i cnt size compare = heapify_loop (cnt - i) array i cnt size compare

-- The two loops of `sort`, by their `i`
unfoldable pub build_loop : ℕ → Array → ℕ → ℕ → Compare → Array
build_loop zero array cnt size compare = array
build_loop (suc i) array cnt size compare =
    build_loop i (heapify array (suc i) cnt size compare) cnt size compare

unfoldable pub extract_loop : ℕ → Array → ℕ → Compare → Array
extract_loop zero array size compare = array
extract_loop (suc zero) array size compare = array
extract_loop (suc (suc i)) array size compare =
    extract_loop (suc i) (heapify (do_swap array 1 (suc (suc i)) size) 1 (suc i) size compare) size
      compare

-- `some_array` tells whether the array is not NULL; `compare` is not.
unfoldable pub sort : Array → Bool → ℕ → ℕ → Compare → Result Array
sort array some_array cnt size compare =
    assert (some_array || cnt == 0)
    >> (assert (ltb 0 size)
        >> ok (extract_loop cnt (build_loop (cnt / 2) array cnt size compare) size compare))

abbrev pub qsort : Array → Bool → ℕ → ℕ → Compare → Result Array
qsort array some_array cnt size compare = sort array some_array cnt size compare

-- The element that a pointer stands for, given in bytes from the start of the array
abbrev pub elem_at : Array → ℕ → ℕ → List ℕ
elem_at array size p = elem array size (p / size + 1)

-- The loop of `binary_search`, whose pointers are bytes from the start of the array; it runs at most as
-- often as there are elements.
unfoldable pub search_loop : ℕ → List ℕ → Array → ℕ → ℕ → ℕ → Compare → Option ℕ
search_loop zero key array first last size compare = none
search_loop (suc fuel) key array first last size compare =
    let range = (last - first) / size in
    let middle = first + range / 2 * size in
    let cmp = compare key (elem_at array size middle) in
    let first1 = if is_less cmp then first else middle + size in
    let last1 = if is_less cmp then middle else last in
    let rest = search_loop fuel key array first1 last1 size compare in
    if ltb first last then (if is_less cmp || is_more cmp then rest else some middle) else none

-- The result is where the element begins, NULL is `none`.
unfoldable pub binary_search : List ℕ → Array → ℕ → ℕ → Compare → Option ℕ
binary_search key array cnt size compare =
    search_loop cnt key array 0 (size * cnt % 2 ^ 32) size compare

abbrev pub bsearch : List ℕ → Array → ℕ → ℕ → Compare → Option ℕ
bsearch key array cnt size compare = binary_search key array cnt size compare
