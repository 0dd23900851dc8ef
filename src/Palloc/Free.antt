-- ===== src/Palloc/Free.antt =====
-- `palloc_free_multiple`: giving pages back, and what it detects.
use eda.Prelude.{
  ℕ, ◌+◌, ◌-◌, ◌<◌, ◌≡◌, ◌≢◌, refl, ◌∙◌, ◌⊎◌, Bool, true, false, ==-ne, if◌then◌else◌, arith, inl,
  inr, Result, ok, panic, ◌>>=◌,
}
use mathlib.Core.Path.{subst₂}
use eda.Bitmap.Ranges.{within, bitmap_set_multiple-Rewrites}
use eda.Bitmap.Create.{bitmap_all-true, bitmap_all-false}
use eda.Vaddr.{pg_ofs, pg_no}
use eda.Palloc.{
  Pool, Palloc, page_from_pool, release, poison, palloc_free_multiple, palloc_get_multiple,
  pool_for, has, pal_user,
}
use eda.Palloc.Get.{Got, granted, refused, palloc_get_multiple-Got}
use eda.Palloc.State.{
  IsPool, IsValid, pool_uses, in_use, IsRange, Marks, SameLayout, Sets, Rewrites-Marks, kernel-Sets,
  user-Sets,
}

module _ {p : Pool} (v : IsPool p) (pages cnt : ℕ) (range : IsRange p pages cnt) where
  release-Marks :
      ((n : ℕ) → within (pg_no pages) cnt n ≡ true → pool_uses p n ≡ true)
      → (p' : Pool) × (release p pages cnt ≡ ok p') × Marks p pages cnt false p'
  unfolding release
  release-Marks used =
      let idx = pg_no pages - pg_no p.base in
      let all =
        bitmap_all-true idx cnt v.map_valid (omega (arith, range.first, range.last)) (λ i lo hi.
          let e : pg_no p.base + i - pg_no p.base ≡ i = omega arith in
          rw e at (used (pg_no p.base + i) (ground (arith, range.first)))) in
      let (map', set, r) =
        bitmap_set_multiple-Rewrites idx false cnt v.map_valid
          (omega (arith, range.first, range.last)) in
      (
        record p { used_map = map' },
        rw (all, set) refl,
        Rewrites-Marks idx pages cnt false v (omega (arith, range.first)) r (λ j. refl),
      )

  -- A page of the group that is not in use is detected.
  release-panic :
      (n : ℕ)
      → within (pg_no pages) cnt n ≡ true
      → pool_uses p n ≡ false
      → release p pages cnt ≡ panic
  unfolding release
  release-panic n w free =
      let idx = pg_no pages - pg_no p.base in
      let all =
        bitmap_all-false idx cnt v.map_valid (omega (arith, range.first, range.last))
          (n - pg_no p.base) (ground (arith, range.first)) (ground (arith, range.first)) free in
      rw all refl

-- The group lies in one of the two pools.
abbrev pub InPools : Palloc → ℕ → ℕ → Type 0
InPools s pages cnt = IsRange s.kernel_pool pages cnt ⊎ IsRange s.user_pool pages cnt

module _ {s : Palloc} (v : IsValid s) (pages cnt : ℕ) (aligned : pg_ofs pages ≡ 0)
    (pos : 0 < cnt) where
  owned-kernel : IsRange s.kernel_pool pages cnt → page_from_pool s.kernel_pool pages ≡ true
  unfolding page_from_pool
  owned-kernel range = ground (arith, range.first, range.last)

  owned-user :
      IsRange s.user_pool pages cnt
      → (page_from_pool s.kernel_pool pages ≡ false) × (page_from_pool s.user_pool pages ≡ true)
  unfolding page_from_pool
  owned-user range =
      ground (arith, range.first, range.last, v.apart, v.kernel.aligned, v.user.aligned)

  not_null : InPools s pages cnt → pages ≢ 0
  not_null (inl range) = omega (arith, range.first, v.kernel.aligned, v.kernel.above)
  not_null (inr range) = omega (arith, range.first, v.user.aligned, v.user.above)

  free-kernel :
      IsRange s.kernel_pool pages cnt
      → palloc_free_multiple s pages cnt ≡ (
          release s.kernel_pool pages cnt >>= λ p.
          ok (record s { kernel_pool = p; memory = poison s.memory pages cnt }))
  unfolding palloc_free_multiple
  free-kernel range =
      rw
        (
          aligned,
          ==-ne pages 0 (not_null (inl range)),
          ==-ne cnt 0 (omega arith),
          owned-kernel range,
        )
        refl

  free-user :
      IsRange s.user_pool pages cnt
      → palloc_free_multiple s pages cnt ≡ (
          release s.user_pool pages cnt >>= λ p.
          ok (record s { user_pool = p; memory = poison s.memory pages cnt }))
  unfolding palloc_free_multiple
  free-user range =
      rw
        (
          aligned,
          ==-ne pages 0 (not_null (inr range)),
          ==-ne cnt 0 (omega arith),
          (owned-user range).0,
          (owned-user range).1,
        )
        refl

  kernel_uses :
      IsRange s.kernel_pool pages cnt
      → (n : ℕ) (b : Bool) → within (pg_no pages) cnt n ≡ true
      → in_use s n ≡ b
      → pool_uses s.kernel_pool n ≡ b
  kernel_uses range n b w e = ground (arith, range.first, range.last)

  user_uses :
      IsRange s.user_pool pages cnt
      → (n : ℕ) (b : Bool) → within (pg_no pages) cnt n ≡ true
      → in_use s n ≡ b
      → pool_uses s.user_pool n ≡ b
  user_uses range n b w e =
      ground (arith, range.first, range.last, v.apart, v.kernel.aligned, v.user.aligned)

  -- Pages of a pool that are all in use are given back: the call returns, these pages are free, and
  -- every other page is as before.
  pub palloc_free_multiple-Sets :
      InPools s pages cnt
      → ((n : ℕ) → within (pg_no pages) cnt n ≡ true → in_use s n ≡ true)
      → (s' : Palloc) × (palloc_free_multiple s pages cnt ≡ ok s') × Sets s pages cnt false s'
  palloc_free_multiple-Sets (inl range) used =
      let (p', e, marks) =
        release-Marks v.kernel pages cnt range (λ n w. kernel_uses range n true w (used n w)) in
      let m = poison s.memory pages cnt in
      (
        record s { kernel_pool = p'; memory = m },
        rw (free-kernel range, e) refl,
        kernel-Sets v pages cnt false range marks m,
      )
  palloc_free_multiple-Sets (inr range) used =
      let (p', e, marks) =
        release-Marks v.user pages cnt range (λ n w. user_uses range n true w (used n w)) in
      let m = poison s.memory pages cnt in
      (
        record s { user_pool = p'; memory = m },
        rw (free-user range, e) refl,
        user-Sets v pages cnt false range marks m,
      )

  -- Giving back a group with a page that is not in use, as a second free of it, panics.
  pub palloc_free_multiple-panic :
      InPools s pages cnt
      → (n : ℕ) → within (pg_no pages) cnt n ≡ true
      → in_use s n ≡ false
      → palloc_free_multiple s pages cnt ≡ panic
  palloc_free_multiple-panic (inl range) n w free =
      rw
        (
          free-kernel range,
          release-panic v.kernel pages cnt range n w (kernel_uses range n false w free),
        )
        refl
  palloc_free_multiple-panic (inr range) n w free =
      rw
        (free-user range, release-panic v.user pages cnt range n w (user_uses range n false w free))
        refl

IsRange-layout :
    {p p' : Pool} {pages cnt : ℕ}
    → p'.base ≡ p.base
    → p'.used_map.bit_cnt ≡ p.used_map.bit_cnt
    → IsRange p pages cnt
    → IsRange p' pages cnt
IsRange-layout e f range = record {
  first = omega (arith, range.first);
  last = omega (arith, range.last);
}

InPools-layout :
    {s s' : Palloc} {pages cnt : ℕ} → SameLayout s s' → InPools s pages cnt → InPools s' pages cnt
InPools-layout l (inl range) = inl (IsRange-layout l.kernel_base l.kernel_size range)
InPools-layout l (inr range) = inr (IsRange-layout l.user_base l.user_size range)

InPools-pool_for :
    (s : Palloc) (flags pages cnt : ℕ) → IsRange (pool_for s flags) pages cnt → InPools s pages cnt
InPools-pool_for s flags pages cnt = go (has flags pal_user)
  where
    go :
        (user : Bool)
        → IsRange (if user then s.user_pool else s.kernel_pool) pages cnt
        → InPools s pages cnt
    go true range = inr range
    go false range = inl range

-- One call gives the `cnt` pages back, and then the pages that are in use are those of `s`.
abbrev pub GivesBack : Palloc → ℕ → ℕ → Palloc → Type 0
GivesBack s cnt pages s' =
    (s'' : Palloc) × (palloc_free_multiple s' pages cnt ≡ ok s'')
    × IsValid s''
    × ((n : ℕ) → in_use s'' n ≡ in_use s n)

GivesBack-granted :
    {s s' : Palloc} (pages cnt : ℕ)
    → 0 < cnt
    → pg_ofs pages ≡ 0
    → InPools s pages cnt
    → ((n : ℕ) → within (pg_no pages) cnt n ≡ true → in_use s n ≡ false)
    → Sets s pages cnt true s'
    → GivesBack s cnt pages s'
GivesBack-granted {s} {s'} pages cnt pos aligned range free sets =
    let (s'', e, back) =
      palloc_free_multiple-Sets sets.valid pages cnt aligned pos (InPools-layout sets.layout range)
        (λ n w. sets.uses n ∙ rw w refl) in
    (
      s'',
      e,
      back.valid,
      λ n.
          restored n (in_use s n) (in_use s' n) (in_use s'' n) (back.uses n) (sets.uses n) (free n),
    )
  where
    restored :
        (n : ℕ) (a b c : Bool)
        → c ≡ (if within (pg_no pages) cnt n then false else b)
        → b ≡ (if within (pg_no pages) cnt n then true else a)
        → (within (pg_no pages) cnt n ≡ true → a ≡ false)
        → c ≡ a
    restored n a b c h g f = ground arith

give_back :
    {s : Palloc} (flags cnt : ℕ) {r : Result (ℕ × Palloc)} {pages : ℕ} {s' : Palloc}
    → 0 < cnt
    → Got s flags cnt r
    → r ≡ ok (pages, s')
    → pages ≢ 0
    → GivesBack s cnt pages s'
give_back {s} flags cnt {pages} {s'} pos (granted pages0 s0 ne0 aligned range free sets mem) e ne =
    let e1 : pages0 ≡ pages = cc in
    let e2 : s0 ≡ s' = cc in
    subst₂ (GivesBack s cnt) e1 e2 (
      GivesBack-granted pages0 cnt pos aligned (InPools-pool_for s flags pages0 cnt range) free
        sets)
give_back flags cnt pos (refused s0 r no_run e0 sets mem) e ne = absurd (ground arith)

-- What `palloc_get_multiple` has handed out can be given back by one call, after which exactly the
-- pages that were in use at first are in use.
pub palloc_free_multiple-get :
    {s : Palloc} (v : IsValid s) (flags cnt : ℕ) {pages : ℕ} {s' : Palloc}
    → 0 < cnt
    → palloc_get_multiple s flags cnt ≡ ok (pages, s')
    → pages ≢ 0
    → GivesBack s cnt pages s'
palloc_free_multiple-get v flags cnt pos e ne =
    give_back flags cnt pos (palloc_get_multiple-Got v flags cnt pos) e ne
