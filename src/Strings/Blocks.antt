-- ===== src/Strings/Blocks.antt =====
-- What is in memory after a block has been copied or filled.
use eda.Prelude.{
  ℕ, zero, suc, ◌+◌, ◌-◌, ◌≤◌, ◌≡◌, ◌≢◌, refl, ◌∙◌, ◌&&◌, ◌||◌, true, false, ◌==◌, ==-ne, ltb, leb,
  arith, Bool-cases, inl, inr, if◌then◌else◌, ok,
}
use eda.Prelude.Members.{update}
use eda.Palloc.{Memory}
use eda.Strings.{copy_up, copy_down, memcpy, memmove, fill, memset}
use eda.Palloc

-- Memory `m` with the `size` bytes from `src` on moved to `dst`.
abbrev pub moved : Memory → ℕ → ℕ → ℕ → ℕ → ℕ
moved m dst src size a = if leb dst a && ltb a (dst + size) then m (a - dst + src) else m a

-- A byte is copied, then the block behind it.
moved-front :
    (m : Memory) (dst src n a : ℕ)
    → (leb dst src || leb (src + suc n) dst) ≡ true
    → moved (update m dst (m src)) (dst + 1) (src + 1) n a ≡ moved m dst src (suc n) a
moved-front m dst src n a h = elim (Bool-cases (leb (dst + 1) a && ltb a (dst + suc n))) [
  | inl e ↦
      let c : (leb (dst + 1) a && ltb a (dst + 1 + n)) ≡ true = ground arith in
      let c2 : (leb dst a && ltb a (dst + suc n)) ≡ true = ground arith in
      let p : a - (dst + 1) + (src + 1) ≡ a - dst + src = ground arith in
      let q : (a - dst + src == dst) ≡ false = ground arith in rw (c, c2, p, q) refl
  | inr e ↦
      let c : (leb (dst + 1) a && ltb a (dst + 1 + n)) ≡ false = ground arith in rw c (front e)
]
  where
    front :
        (leb (dst + 1) a && ltb a (dst + suc n)) ≡ false
        → update m dst (m src) a ≡ moved m dst src (suc n) a
    front e = elim (Bool-cases (a == dst)) [
      | inl z ↦
          let c : (leb dst a && ltb a (dst + suc n)) ≡ true = ground arith in
          let p : a - dst + src ≡ src = ground arith in rw (z, c, p) refl
      | inr z ↦ let c : (leb dst a && ltb a (dst + suc n)) ≡ false = ground arith in rw (z, c) refl
    ]

copy_up-moved :
    (m : Memory) (dst src n : ℕ)
    → (leb dst src || leb (src + n) dst) ≡ true
    → (a : ℕ) → copy_up m dst src n a ≡ moved m dst src n a
unfolding copy_up
copy_up-moved m dst src zero h a =
    let c : (leb dst a && ltb a (dst + 0)) ≡ false = ground arith in rw c refl
copy_up-moved m dst src (suc n) h a =
    copy_up-moved (update m dst (m src)) (dst + 1) (src + 1) n (ground arith) a
    ∙ moved-front m dst src n a h

-- The last byte of a block is copied, then those before it.
moved-back :
    (m : Memory) (dst src n a : ℕ)
    → src ≤ dst
    → moved (update m (dst + n) (m (src + n))) dst src n a ≡ moved m dst src (suc n) a
moved-back m dst src n a h = elim (Bool-cases (leb dst a && ltb a (dst + n))) [
  | inl e ↦
      let c : (leb dst a && ltb a (dst + suc n)) ≡ true = ground arith in
      let q : (a - dst + src == dst + n) ≡ false = ground arith in rw (e, c, q) refl
  | inr e ↦ rw e (last e)
]
  where
    last :
        (leb dst a && ltb a (dst + n)) ≡ false
        → update m (dst + n) (m (src + n)) a ≡ moved m dst src (suc n) a
    last e = elim (Bool-cases (a == dst + n)) [
      | inl z ↦
          let c : (leb dst a && ltb a (dst + suc n)) ≡ true = ground arith in
          let p : a - dst + src ≡ src + n = ground arith in rw (z, c, p) refl
      | inr z ↦ let c : (leb dst a && ltb a (dst + suc n)) ≡ false = ground arith in rw (z, c) refl
    ]

copy_down-moved :
    (m : Memory) (dst src n : ℕ)
    → src ≤ dst
    → (a : ℕ) → copy_down m dst src n a ≡ moved m dst src n a
unfolding copy_down
copy_down-moved m dst src zero h a =
    let c : (leb dst a && ltb a (dst + 0)) ≡ false = ground arith in rw c refl
copy_down-moved m dst src (suc n) h a =
    copy_down-moved (update m (dst + n) (m (src + n))) dst src n h a ∙ moved-back m dst src n a h

-- `memmove` of blocks at addresses other than NULL, however they overlap, returns, and memory then holds
-- at `dst` the block that was at `src`, and elsewhere what it held. The pointer returned is DST where
-- DST is not below SRC, and else the end of the block there.
pub memmove-moved :
    (m : Memory) (dst src size : ℕ)
    → dst ≢ 0
    → src ≢ 0
    → (m' : Memory) × (memmove m dst src size ≡ ok ((if ltb dst src then dst + size else dst), m'))
      × ((a : ℕ) → m' a ≡ moved m dst src size a)
unfolding memmove
memmove-moved m dst src size d s = elim (Bool-cases (ltb dst src)) [
  | inl e ↦ (
    copy_up m dst src size,
    rw (==-ne dst 0 d, ==-ne src 0 s, e) refl,
    copy_up-moved m dst src size (ground arith),
  )
  | inr e ↦ (
    copy_down m dst src size,
    rw (==-ne dst 0 d, ==-ne src 0 s, e) refl,
    copy_down-moved m dst src size (ground arith),
  )
]

-- `memcpy` of blocks at addresses other than NULL that do not overlap returns DST, and memory then holds
-- at `dst` the block that was at `src`, and elsewhere what it held.
pub memcpy-moved :
    (m : Memory) (dst src size : ℕ)
    → dst ≢ 0
    → src ≢ 0
    → (leb (dst + size) src || leb (src + size) dst) ≡ true
    → (m' : Memory) × (memcpy m dst src size ≡ ok (dst, m'))
      × ((a : ℕ) → m' a ≡ moved m dst src size a)
unfolding memcpy
memcpy-moved m dst src size d s apart = (
  copy_up m dst src size,
  rw (==-ne dst 0 d, ==-ne src 0 s) refl,
  copy_up-moved m dst src size (ground arith),
)

fill-memset :
    (m : Memory) (dst value n a : ℕ) → fill m dst value n a ≡ eda.Palloc.memset m dst value n a
unfolding fill eda.Palloc.memset
fill-memset m dst value zero a = ground arith
fill-memset m dst value (suc n) a =
    fill-memset (update m dst value) (dst + 1) value n a ∙ ground arith

-- The loop of `memset` writes what the page allocator takes it to write.
pub memset-memset :
    (m : Memory) (dst value size : ℕ)
    → dst ≢ 0
    → (m' : Memory) × (memset m dst value size ≡ ok (dst, m'))
      × ((a : ℕ) → m' a ≡ eda.Palloc.memset m dst value size a)
unfolding memset
memset-memset m dst value size d =
    (fill m dst value size, rw (==-ne dst 0 d) refl, fill-memset m dst value size)
