-- ===== src/Palloc/Init.antt =====
-- `palloc_init`: the allocator that the kernel starts with.
use eda.Prelude.{
  ℕ, zero, suc, ◌+◌, ◌-◌, ◌*◌, ◌/◌, ◌%◌, ◌^◌, ◌≤◌, ◌<◌, ◌≡◌, refl, ap, true, false, ltb, arith,
  List, length, ok,
}
use eda.Bitmap.{Bitmap, bitmap_create_in_buf}
use eda.Bitmap.Create.{IsClear, bitmap_create_in_buf-IsClear}
use eda.Vaddr.{address_mod, page_size, pg_no, ptov, phys_base}
use eda.Palloc.{
  Memory, Pool, Palloc, words, bm_pages, init_pool, palloc_init, user_share, page_difference,
}
use eda.Palloc.State.{IsPool, IsValid, owns, pool_uses, in_use}

length-words : (m : Memory) (a n : ℕ) → length (words m a n) ≡ n
unfolding words
length-words m a zero = refl
length-words m a (suc n) = ap suc (length-words m (a + 4) n)

-- A pool with no page in use, in the `cnt` pages from `base` on.
record IsFresh (base cnt : ℕ) (p : Pool) : Type 0 where
  is_pool : IsPool p
  low : base < p.base
  high : p.base + page_size * p.used_map.bit_cnt ≡ base + page_size * cnt
  unused : (n : ℕ) → owns p n ≡ true → pool_uses p n ≡ false

IsFresh-pool :
    (base cnt k : ℕ) {b : Bitmap}
    → 0 < k
    → k ≤ cnt
    → 0 < base
    → base % page_size ≡ 0
    → base + page_size * cnt < address_mod
    → IsClear (cnt - k) b
    → IsFresh base cnt (record { used_map = b; base = (base + k * page_size) % address_mod })
IsFresh-pool base cnt k {b} pos le above aligned fits clear = record {
  is_pool = record {
    map_valid = clear.valid;
    aligned = omega arith;
    above = omega arith;
    inside = omega (arith, clear.size);
  };
  low = omega arith;
  high = omega (arith, clear.size);
  unused = λ n own.
      ground (arith, clear.size, clear.clear (n - pg_no ((base + k * page_size) % address_mod)));
}

bm_pages_bounds : (cnt : ℕ) → 0 < cnt → cnt < 2 ^ 18 → (0 < bm_pages cnt) × (bm_pages cnt ≤ cnt)
bm_pages_bounds cnt pos small = omega arith

init_pool-IsFresh :
    (m : Memory) (base cnt : ℕ)
    → 0 < cnt
    → cnt < 2 ^ 18
    → 0 < base
    → base % page_size ≡ 0
    → base + page_size * cnt < address_mod
    → (p : Pool) × (init_pool m base cnt ≡ ok p) × IsFresh base cnt p
unfolding init_pool
init_pool-IsFresh m base cnt pos small above aligned fits = go (
    bitmap_create_in_buf-IsClear (cnt - bm_pages cnt) block (bm_pages cnt * page_size) (omega arith)
      (omega arith) (omega (arith, length-words m (base + 8) word_cnt)))
  where
    word_cnt : ℕ
    word_cnt = (bm_pages cnt * page_size - 8) / 4

    block : List ℕ
    block = words m (base + 8) word_cnt

    go :
        (b : Bitmap) × (bitmap_create_in_buf (cnt - bm_pages cnt) block (bm_pages cnt * page_size)
            ≡ ok b)
          × IsClear (cnt - bm_pages cnt) b
        → (p : Pool) × (init_pool m base cnt ≡ ok p) × IsFresh base cnt p
    go (b, e, clear) =
        let bounds = bm_pages_bounds cnt pos small in
        let enough : ltb cnt (bm_pages cnt) ≡ false = ground (arith, bounds) in
        (
          record { used_map = b; base = (base + bm_pages cnt * page_size) % address_mod },
          rw (enough, e) refl,
          IsFresh-pool base cnt (bm_pages cnt) bounds.0 bounds.1 above aligned fits clear,
        )

-- The address of the first free page.
abbrev free_start : ℕ
free_start = phys_base + 1024 * 1024

fresh-IsValid :
    (m : Memory) (kernel_pages user_pages : ℕ) {kernel user : Pool}
    → free_start + page_size * (kernel_pages + user_pages) < address_mod
    → IsFresh free_start kernel_pages kernel
    → IsFresh ((free_start + kernel_pages * page_size) % address_mod) user_pages user
    → let s : Palloc = record { kernel_pool = kernel; user_pool = user; memory = m } in
      IsValid s × ((n : ℕ) → in_use s n ≡ false)
fresh-IsValid m kernel_pages user_pages {kernel} {user} fits k u = (
  record { kernel = k.is_pool; user = u.is_pool; apart = omega (arith, k.high, u.low) },
  λ n. ground (arith, k.unused n, u.unused n),
)

palloc_init_lem :
    (m : Memory) (ram limit free user_pages : ℕ) {kernel user : Pool}
    → free + 256 ≡ ram
    → ram < 2 ^ 18
    → user_share free limit ≡ user_pages
    → init_pool m free_start (free - user_pages) ≡ ok kernel
    → init_pool m ((free_start + (free - user_pages) * page_size) % address_mod) user_pages
      ≡ ok user
    → palloc_init m ram limit ≡ ok (record { kernel_pool = kernel; user_pool = user; memory = m })
unfolding palloc_init ptov
palloc_init_lem m ram limit free user_pages total high e ek eu =
    let in_ram : ltb (ram * page_size) phys_base ≡ true = ground arith in
    let split : page_difference ((ram * page_size + phys_base) % address_mod) free_start ≡ free =
      ground arith in
    rw (in_ram, split, e, ek, eu) refl

-- With at least 258 pages and less than 1 GB of RAM, and room for a user page, `palloc_init` returns a
-- valid allocator with no page in use.
pub palloc_init-IsValid :
    (m : Memory) (init_ram_pages user_page_limit : ℕ)
    → 258 ≤ init_ram_pages
    → init_ram_pages < 2 ^ 18
    → 0 < user_page_limit
    → (s : Palloc) × (palloc_init m init_ram_pages user_page_limit ≡ ok s)
      × IsValid s
      × ((n : ℕ) → in_use s n ≡ false)
unfolding palloc_init ptov
palloc_init-IsValid m ram limit low high pos =
    let free : ℕ = ram - 256 in go free (omega arith) (user_share free limit) refl (ground arith)
  where
    go :
        (free : ℕ)
        → free + 256 ≡ ram
        → (user_pages : ℕ) → user_share free limit ≡ user_pages
        → (0 < user_pages) × (user_pages < free)
        → (s : Palloc) × (palloc_init m ram limit ≡ ok s)
          × IsValid s
          × ((n : ℕ) → in_use s n ≡ false)
    go free total user_pages e bounds =
        let kernel_pages : ℕ = free - user_pages in
        let (k, ek, fk) =
          init_pool-IsFresh m free_start kernel_pages (omega (arith, bounds)) (omega arith)
            (omega arith) (omega arith) (omega arith) in
        let (u, eu, fu) =
          init_pool-IsFresh m ((free_start + kernel_pages * page_size) % address_mod) user_pages
            bounds.0 (omega (arith, bounds)) (omega arith) (omega arith) (omega (arith, bounds)) in
        let (valid, unused) =
          fresh-IsValid m kernel_pages user_pages (omega (arith, bounds)) fk fu in
        (
          record { kernel_pool = k; user_pool = u; memory = m },
          palloc_init_lem m ram limit free user_pages total high e ek eu,
          valid,
          unused,
        )
