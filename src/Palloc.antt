-- ===== src/Palloc.antt =====
-- mount/lab2/pintos/src/threads/palloc.c: the page allocator, two pools of pages over bitmaps.
-- Memory is a byte for each address, zero standing for no address is NULL. The elements of a pool's
-- bitmap are kept with the pool. A pool's lock is held from the scan to the flip alone, so that
-- a call is one step; it is free again when the call returns.
pub mod State
pub mod Get
pub mod Free
pub mod Init
use Prim.Native.Nat.{bit_and}
use eda.Prelude.{
  ℕ, zero, suc, ◌+◌, ◌-◌, ◌*◌, ◌/◌, ◌%◌, ◌^◌, ◌&&◌, ◌||◌, Bool, true, false, not, List, [], ◌∷◌,
  ltb, leb, ◌==◌, if◌then◌else◌, Result, ok, panic, ◌>>=◌, ◌>>◌, assert,
}
use eda.Bitmap.{
  add_size, Bitmap, bitmap_error, bitmap_buf_size, bitmap_scan_and_flip, bitmap_all,
  bitmap_set_multiple, bitmap_create_in_buf,
}
use eda.Vaddr.{address_mod, page_size, pg_ofs, pg_no, ptov}

abbrev pub Memory : Type 0
Memory = ℕ → ℕ

-- `struct pool`
pub record Pool : Type 0 where
  pub used_map : Bitmap
  pub base : ℕ

-- The static variables `kernel_pool` and `user_pool`, and memory.
pub record Palloc : Type 0 where
  pub kernel_pool : Pool
  pub user_pool : Pool
  pub memory : Memory

-- `enum palloc_flags`
abbrev pub pal_assert : ℕ
pal_assert = 1

abbrev pub pal_zero : ℕ
pal_zero = 2

abbrev pub pal_user : ℕ
pal_user = 4

-- `flags & flag`
abbrev pub has : ℕ → ℕ → Bool
has flags flag = not (bit_and flags flag == 0)

-- `memset (dst, value, size)`
unfoldable pub memset : Memory → ℕ → ℕ → ℕ → Memory
memset m dst value size a = if leb dst a && ltb a (dst + size) then value else m a

abbrev pub pool_for : Palloc → ℕ → Pool
pool_for s flags = if has flags pal_user then s.user_pool else s.kernel_pool

abbrev pub with_pool_for : Palloc → ℕ → Pool → Palloc
with_pool_for s flags p =
    if has flags pal_user then record s { user_pool = p } else record s { kernel_pool = p }

-- `pool->base + PGSIZE * page_idx`, or NULL where no page was found.
abbrev pub pages_at : Pool → ℕ → ℕ
pages_at p page_idx =
    if page_idx == bitmap_error then 0 else (p.base + page_size * page_idx) % address_mod

-- What happens to the pages found, at `pages`.
unfoldable pub finish_get : Palloc → ℕ → ℕ → ℕ → Result (ℕ × Palloc)
finish_get s flags page_cnt pages =
    if pages == 0
    then (if has flags pal_assert then panic else ok (pages, s))
    else ok (
      pages,
      if has flags pal_zero
          then record s { memory = memset s.memory pages 0 (page_size * page_cnt) }
          else s,
    )

unfoldable pub palloc_get_multiple : Palloc → ℕ → ℕ → Result (ℕ × Palloc)
palloc_get_multiple s flags page_cnt =
    if page_cnt == 0
    then ok (0, s)
    else (bitmap_scan_and_flip (pool_for s flags).used_map 0 page_cnt false >>= λ r.
        finish_get (with_pool_for s flags (record (pool_for s flags) { used_map = r.1 })) flags
          page_cnt (pages_at (pool_for s flags) r.0))

unfoldable pub palloc_get_page : Palloc → ℕ → Result (ℕ × Palloc)
palloc_get_page s flags = palloc_get_multiple s flags 1

-- `page_from_pool`
unfoldable pub page_from_pool : Pool → ℕ → Bool
page_from_pool p page =
    leb (pg_no p.base) (pg_no page) && ltb (pg_no page) (pg_no p.base + p.used_map.bit_cnt)

-- Clears the pages and gives them back to `p`; the result is the new pool.
unfoldable pub release : Pool → ℕ → ℕ → Result Pool
release p pages page_cnt = do
  let page_idx = pg_no pages - pg_no p.base
  all ← bitmap_all p.used_map page_idx page_cnt
  assert all
  map' ← bitmap_set_multiple p.used_map page_idx page_cnt false
  ok (record p { used_map = map' })

-- `memset (pages, 0xcc, PGSIZE * page_cnt)` of a build without NDEBUG.
abbrev pub poison : Memory → ℕ → ℕ → Memory
poison m pages page_cnt = memset m pages 0xcc (page_size * page_cnt)

unfoldable pub palloc_free_multiple : Palloc → ℕ → ℕ → Result Palloc
palloc_free_multiple s pages page_cnt =
    assert (pg_ofs pages == 0)
    >> (if pages == 0 || page_cnt == 0
        then ok s
        else if page_from_pool s.kernel_pool pages
        then (release s.kernel_pool pages page_cnt >>= λ p.
            ok (record s { kernel_pool = p; memory = poison s.memory pages page_cnt }))
        else if page_from_pool s.user_pool pages
        then (release s.user_pool pages page_cnt >>= λ p.
            ok (record s { user_pool = p; memory = poison s.memory pages page_cnt }))
        else panic)

unfoldable pub palloc_free_page : Palloc → ℕ → Result Palloc
palloc_free_page s page = palloc_free_multiple s page 1

-- The `n` little-endian words from address `a` on.
unfoldable pub words : Memory → ℕ → ℕ → List ℕ
words m a zero = []
words m a (suc n) =
    (m a + 256 * m (a + 1) + 65536 * m (a + 2) + 16777216 * m (a + 3)) ∷ words m (a + 4) n

-- DIV_ROUND_UP (bitmap_buf_size (page_cnt), PGSIZE)
abbrev pub bm_pages : ℕ → ℕ
bm_pages page_cnt = add_size (bitmap_buf_size page_cnt) (page_size - 1) / page_size

-- The bitmap lies in the first pages, whose words behind its header are its elements.
unfoldable pub init_pool : Memory → ℕ → ℕ → Result Pool
init_pool m base page_cnt =
    if ltb page_cnt (bm_pages page_cnt)
    then panic
    else (bitmap_create_in_buf (page_cnt - bm_pages page_cnt)
          (words m (base + 8) ((bm_pages page_cnt * page_size - 8) / 4))
          (bm_pages page_cnt * page_size)
        >>= λ map'. ok (record {
          used_map = map';
          base = (base + bm_pages page_cnt * page_size) % address_mod;
        }))

-- The pages of the user pool, of `free_pages` in all.
abbrev pub user_share : ℕ → ℕ → ℕ
user_share free_pages user_page_limit =
    if ltb user_page_limit (free_pages / 2) then user_page_limit else free_pages / 2

-- `(end - start) / PGSIZE` of two addresses, a signed quotient, as a `size_t`.
abbrev pub page_difference : ℕ → ℕ → ℕ
page_difference end start =
    if leb start end
    then (end - start) / page_size
    else (address_mod - (start - end) / page_size) % address_mod

unfoldable pub palloc_init : Memory → ℕ → ℕ → Result Palloc
palloc_init m init_ram_pages user_page_limit = do
  free_start ← ptov (1024 * 1024)
  free_end ← ptov (init_ram_pages * page_size)
  let free_pages = page_difference free_end free_start
  let user_pages = user_share free_pages user_page_limit
  let kernel_pages = free_pages - user_pages
  kernel ← init_pool m free_start kernel_pages
  user ← init_pool m ((free_start + kernel_pages * page_size) % address_mod) user_pages
  ok (record { kernel_pool = kernel; user_pool = user; memory = m })
