-- ===== src/Palloc/Get.antt =====
-- `palloc_get_multiple`: what a request returns.
use eda.Prelude.{
  ℕ, ◌+◌, ◌-◌, ◌*◌, ◌≤◌, ◌<◌, ◌≡◌, ◌≢◌, refl, ap, Bool, true, false, ==-ne, if◌then◌else◌, arith,
  Bool-cases, inl, inr, Result, ok, panic,
}
use eda.Bitmap.{Bitmap, bitmap_error}
use eda.Bitmap.Bit.{Rewrites}
use eda.Bitmap.Ranges.{within}
use eda.Bitmap.Scan.{Scanned, found, missing, flipped, IsBroken, bitmap_scan_and_flip-flipped}
use eda.Vaddr.{page_size, pg_ofs, pg_no}
use eda.Palloc.{
  Memory, Pool, Palloc, pool_for, with_pool_for, has, pal_assert, pal_zero, pal_user, pages_at,
  memset, finish_get, palloc_get_multiple,
}
use eda.Palloc.State.{
  IsPool, IsValid, pool_uses, in_use, IsRange, Marks, Sets, Rewrites-Marks, kernel-Sets, user-Sets,
}

-- The memory after pages were handed out.
abbrev pub zeroed : Palloc → ℕ → ℕ → ℕ → Memory
zeroed s flags cnt pages =
    if has flags pal_zero then memset s.memory pages 0 (page_size * cnt) else s.memory

-- What a request for `cnt` pages comes to: a group of free pages of the pool asked for, which are then
-- in use, or no page at all where the pool has no `cnt` free pages in a row.
pub data Got (s : Palloc) (flags cnt : ℕ) : Result (ℕ × Palloc) → Type 0 where
  granted :
      (pages : ℕ) (s' : Palloc)
      → pages ≢ 0
      → pg_ofs pages ≡ 0
      → IsRange (pool_for s flags) pages cnt
      → ((n : ℕ) → within (pg_no pages) cnt n ≡ true → in_use s n ≡ false)
      → Sets s pages cnt true s'
      → s'.memory ≡ zeroed s flags cnt pages
      → Got s flags cnt (ok (pages, s'))
  refused :
      (s' : Palloc) (r : Result (ℕ × Palloc))
      → ((i : ℕ)
          → i + cnt ≤ (pool_for s flags).used_map.bit_cnt
          → IsBroken (pool_for s flags).used_map i cnt false)
      → r ≡ (if has flags pal_assert then panic else ok (0, s'))
      → Sets s 0 0 true s'
      → s'.memory ≡ s.memory
      → Got s flags cnt r

-- The pages of a pool that a scan has found.
module _ {p : Pool} (v : IsPool p) (cnt idx : ℕ) (h : idx + cnt ≤ p.used_map.bit_cnt)
    (pos : 0 < cnt) where
  found_ne : idx ≢ bitmap_error
  found_ne = omega (arith, v.inside, v.above)

  pages_at_lem : pages_at p idx ≡ p.base + page_size * idx
  pages_at_lem = rw (==-ne idx bitmap_error found_ne) (omega (arith, v.inside))

  found_ne_null : pages_at p idx ≢ 0
  found_ne_null = omega (arith, pages_at_lem, v.above)

  pages_at-pg_no : pg_no (pages_at p idx) ≡ pg_no p.base + idx
  pages_at-pg_no = omega (arith, pages_at_lem, v.aligned)

  pages_at-pg_ofs : pg_ofs (pages_at p idx) ≡ 0
  pages_at-pg_ofs = omega (arith, pages_at_lem, v.aligned)

  pages_at-IsRange : IsRange p (pages_at p idx) cnt
  pages_at-IsRange = record {
    first = omega (arith, pages_at-pg_no);
    last = omega (arith, pages_at-pg_no);
  }

finish_get-granted :
    (s : Palloc) (flags cnt pages : ℕ)
    → pages ≢ 0
    → finish_get s flags cnt pages ≡ ok (pages, record s { memory = zeroed s flags cnt pages })
unfolding finish_get
finish_get-granted s flags cnt pages ne =
    rw (==-ne pages 0 ne)
      (elim (Bool-cases (has flags pal_zero)) [ inl e ↦ rw e refl | inr e ↦ rw e refl ])

finish_get-refused :
    (s : Palloc) (flags cnt : ℕ)
    → finish_get s flags cnt 0 ≡ (if has flags pal_assert then panic else ok (0, s))
unfolding finish_get
finish_get-refused s flags cnt = refl

-- Marking the pool that was asked for.
with_pool_for-Sets :
    {s : Palloc} (v : IsValid s) (flags pages cnt : ℕ) {p' : Pool} (m : ℕ → ℕ)
    → IsRange (pool_for s flags) pages cnt
    → Marks (pool_for s flags) pages cnt true p'
    → Sets s pages cnt true (record (with_pool_for s flags p') { memory = m })
with_pool_for-Sets {s} v flags pages cnt {p'} m range marks = go (has flags pal_user) range marks
  where
    go :
        (user : Bool)
        → IsRange (if user then s.user_pool else s.kernel_pool) pages cnt
        → Marks (if user then s.user_pool else s.kernel_pool) pages cnt true p'
        → Sets s pages cnt true
            (record (if user then record s { user_pool = p' } else record s { kernel_pool = p' }) {
              memory = m;
            })
    go true range marks = user-Sets v pages cnt true range marks m
    go false range marks = kernel-Sets v pages cnt true range marks m

pool_for-IsPool : {s : Palloc} → IsValid s → (flags : ℕ) → IsPool (pool_for s flags)
pool_for-IsPool {s} v flags = go (has flags pal_user)
  where
    go : (user : Bool) → IsPool (if user then s.user_pool else s.kernel_pool)
    go true = v.user
    go false = v.kernel

-- A free run of the pool asked for consists of pages that are not in use.
free_of_run :
    {s : Palloc} (v : IsValid s) (flags pages cnt n : ℕ)
    → IsRange (pool_for s flags) pages cnt
    → within (pg_no pages) cnt n ≡ true
    → pool_uses (pool_for s flags) n ≡ false
    → in_use s n ≡ false
free_of_run {s} v flags pages cnt n = go (has flags pal_user)
  where
    go :
        (user : Bool)
        → IsRange (if user then s.user_pool else s.kernel_pool) pages cnt
        → within (pg_no pages) cnt n ≡ true
        → pool_uses (if user then s.user_pool else s.kernel_pool) n ≡ false
        → in_use s n ≡ false
    go true range h e = ground arith
    go false range h e = ground arith

memory-with_pool_for :
    (s : Palloc) (flags : ℕ) (p' : Pool) → (with_pool_for s flags p').memory ≡ s.memory
memory-with_pool_for s flags p' = go (has flags pal_user)
  where
    go :
        (user : Bool)
        → (if user then record s { user_pool = p' } else record s { kernel_pool = p' }).memory
          ≡ s.memory
    go true = refl
    go false = refl

zeroed-with_pool_for :
    (s : Palloc) (flags cnt pages : ℕ) (p' : Pool)
    → zeroed (with_pool_for s flags p') flags cnt pages ≡ zeroed s flags cnt pages
zeroed-with_pool_for s flags cnt pages p' =
    ap (λ m. if has flags pal_zero then memset m pages 0 (page_size * cnt) else m)
      (memory-with_pool_for s flags p')

module _ {s : Palloc} (v : IsValid s) (flags cnt : ℕ) (pos : 0 < cnt) where
  abbrev pool : Pool
  pool = pool_for s flags

  after_scan : ℕ → Bitmap → Result (ℕ × Palloc)
  after_scan idx map' =
      finish_get (with_pool_for s flags (record pool { used_map = map' })) flags cnt
        (pages_at pool idx)

  after_scan-Got :
      (idx : ℕ) (map' : Bitmap)
      → Scanned pool.used_map 0 cnt false idx
      → Rewrites pool.used_map (flipped pool.used_map idx cnt false) map'
      → Got s flags cnt (after_scan idx map')
  unfolding after_scan
  after_scan-Got idx map' (found lo hi run before) r =
      let is_pool = pool_for-IsPool v flags in
      let range = pages_at-IsRange is_pool cnt idx hi pos in
      let ne = found_ne is_pool cnt idx hi pos in
      let pages = pages_at pool idx in
      let no = pages_at-pg_no is_pool cnt idx hi pos in
      let marks : Marks pool pages cnt true (record pool { used_map = map' }) =
        Rewrites-Marks idx pages cnt true is_pool no r (λ j. rw (==-ne idx bitmap_error ne) refl) in
      rw
        (finish_get-granted (with_pool_for s flags (record pool { used_map = map' })) flags cnt
          pages (found_ne_null is_pool cnt idx hi pos))
        (granted pages _ (found_ne_null is_pool cnt idx hi pos)
          (pages_at-pg_ofs is_pool cnt idx hi pos) range
          (λ n w.
            free_of_run v flags pages cnt n range w
              (run (n - pg_no pool.base) (ground arith) (ground arith)))
          (with_pool_for-Sets v flags pages cnt (zeroed s1 flags cnt pages) range marks)
          (zeroed-with_pool_for s flags cnt pages _))
    where
      s1 : Palloc
      s1 = with_pool_for s flags (record pool { used_map = map' })
  after_scan-Got idx map' (missing e before) r =
      let is_pool = pool_for-IsPool v flags in
      let marks : Marks pool pool.base 0 true (record pool { used_map = map' }) =
        Rewrites-Marks 0 pool.base 0 true is_pool (omega arith) r (λ j. rw e (ground arith)) in
      let sets =
        with_pool_for-Sets v flags pool.base 0 s1.memory
          (record { first = omega arith; last = omega arith }) marks in
      refused s1 _ (λ i h. before i (omega arith) h) (rw e (finish_get-refused s1 flags cnt))
        (record {
          valid = sets.valid;
          layout = sets.layout;
          uses = λ n. ground (arith, sets.uses n);
        })
        (memory-with_pool_for s flags _)
    where
      s1 : Palloc
      s1 = with_pool_for s flags (record pool { used_map = map' })

  -- A request for at least one page, to a valid allocator, returns pages that were free and are then in
  -- use, all else unchanged, or NULL (a panic with PAL_ASSERT) if there is no such run of pages.
  pub palloc_get_multiple-Got : Got s flags cnt (palloc_get_multiple s flags cnt)
  unfolding palloc_get_multiple after_scan
  palloc_get_multiple-Got =
      let map_valid = (pool_for-IsPool v flags).map_valid in
      let (idx, map', e, scanned, r) =
        bitmap_scan_and_flip-flipped map_valid cnt false 0 (omega arith) in
      rw (==-ne cnt 0 (omega arith)) (rw e (after_scan-Got idx map' scanned r))
