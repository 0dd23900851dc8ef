-- ===== src/Palloc/State.antt =====
-- One pool: its pages and which of them are in use.
use eda.Prelude.{
  ℕ, ◌+◌, ◌-◌, ◌*◌, ◌%◌, ◌≤◌, ◌<◌, ◌≡◌, refl, Bool, true, false, if◌then◌else◌, arith,
}
use eda.Bitmap.{Bitmap}
use eda.Bitmap.Bit
use eda.Bitmap.Bit.{holds, Rewrites}
use eda.Bitmap.Ranges.{within}
use eda.Vaddr.{address_mod, page_size, pg_no}
use eda.Palloc.{Pool, Palloc}

-- The pool's bitmap is valid, and its pages lie at aligned addresses that do not wrap.
pub record IsPool (p : Pool) : Type 0 where
  pub map_valid : Bit.IsValid p.used_map
  pub aligned : p.base % page_size ≡ 0
  pub above : 0 < p.base
  pub inside : p.base + page_size * p.used_map.bit_cnt ≤ address_mod

-- Page number `n` belongs to the pool; it is in use.
abbrev pub owns : Pool → ℕ → Bool
owns p n = within (pg_no p.base) p.used_map.bit_cnt n

abbrev pub pool_uses : Pool → ℕ → Bool
pool_uses p n = holds p.used_map (n - pg_no p.base)

-- Both pools are valid, and the kernel's lies below the user's.
pub record IsValid (s : Palloc) : Type 0 where
  pub kernel : IsPool s.kernel_pool
  pub user : IsPool s.user_pool
  pub apart : s.kernel_pool.base + page_size * s.kernel_pool.used_map.bit_cnt ≤ s.user_pool.base

-- The abstract state: whether page number `n` is handed out.
abbrev pub in_use : Palloc → ℕ → Bool
in_use s n =
    if owns s.kernel_pool n
    then pool_uses s.kernel_pool n
    else if owns s.user_pool n
    then pool_uses s.user_pool n
    else false

-- The `cnt` pages from the address `pages` on lie in the pool.
pub record IsRange (p : Pool) (pages cnt : ℕ) : Type 0 where
  pub first : pg_no p.base ≤ pg_no pages
  pub last : pg_no pages + cnt ≤ pg_no p.base + p.used_map.bit_cnt

-- `p'` is `p` with the use of these pages set to `value`.
pub record Marks (p : Pool) (pages cnt : ℕ) (value : Bool) (p' : Pool) : Type 0 where
  pub is_pool : IsPool p'
  pub base : p'.base ≡ p.base
  pub size : p'.used_map.bit_cnt ≡ p.used_map.bit_cnt
  pub uses :
      (n : ℕ)
      → owns p n ≡ true
      → pool_uses p' n ≡ (if within (pg_no pages) cnt n then value else pool_uses p n)

-- The pools of `s'` have the pages of those of `s`.
pub record SameLayout (s s' : Palloc) : Type 0 where
  pub kernel_base : s'.kernel_pool.base ≡ s.kernel_pool.base
  pub kernel_size : s'.kernel_pool.used_map.bit_cnt ≡ s.kernel_pool.used_map.bit_cnt
  pub user_base : s'.user_pool.base ≡ s.user_pool.base
  pub user_size : s'.user_pool.used_map.bit_cnt ≡ s.user_pool.used_map.bit_cnt

-- `s'` is a valid state with the same pools, in which the use of these pages is `value`, and that of every other page is
-- as it is in `s`.
pub record Sets (s : Palloc) (pages cnt : ℕ) (value : Bool) (s' : Palloc) : Type 0 where
  pub valid : IsValid s'
  pub layout : SameLayout s s'
  pub uses : (n : ℕ) → in_use s' n ≡ (if within (pg_no pages) cnt n then value else in_use s n)

-- A bitmap rewritten from `idx` on is a pool marked from the page with that index on.
pub Rewrites-Marks :
    {p : Pool} (idx pages cnt : ℕ) (value : Bool) {map' : Bitmap} {f : ℕ → Bool}
    → IsPool p
    → pg_no pages ≡ pg_no p.base + idx
    → Rewrites p.used_map f map'
    → ((j : ℕ) → f j ≡ (if within idx cnt j then value else holds p.used_map j))
    → Marks p pages cnt value (record p { used_map = map' })
Rewrites-Marks {p} idx pages cnt value v e r same = record {
  is_pool = record {
    map_valid = r.valid;
    aligned = v.aligned;
    above = v.above;
    inside = omega (arith, r.size, v.inside);
  };
  base = refl;
  size = r.size;
  uses = λ n own. ground (arith, r.content (n - pg_no p.base), same (n - pg_no p.base));
}

module _ {s : Palloc} (v : IsValid s) (pages cnt : ℕ) (value : Bool) {p' : Pool} where
  pub kernel-Sets :
      IsRange s.kernel_pool pages cnt
      → Marks s.kernel_pool pages cnt value p'
      → (m : ℕ → ℕ) → Sets s pages cnt value (record s { kernel_pool = p'; memory = m })
  kernel-Sets range marks m = record {
    layout = record {
      kernel_base = marks.base;
      kernel_size = marks.size;
      user_base = refl;
      user_size = refl;
    };
    valid = record {
      kernel = marks.is_pool;
      user = v.user;
      apart = omega (arith, marks.base, marks.size, v.apart);
    };
    uses = λ n. ground (arith, marks.uses n);
  }

  pub user-Sets :
      IsRange s.user_pool pages cnt
      → Marks s.user_pool pages cnt value p'
      → (m : ℕ → ℕ) → Sets s pages cnt value (record s { user_pool = p'; memory = m })
  user-Sets range marks m = record {
    layout = record {
      kernel_base = refl;
      kernel_size = refl;
      user_base = marks.base;
      user_size = marks.size;
    };
    valid = record {
      kernel = v.kernel;
      user = marks.is_pool;
      apart = omega (arith, marks.base, marks.size, v.apart);
    };
    uses = λ n. ground (arith, marks.uses n);
  }
