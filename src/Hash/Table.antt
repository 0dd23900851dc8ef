-- ===== src/Hash/Table.antt =====
-- A hash table holds a set of elements, no two of them equal.
use Prim.Native.Nat.{bit_and}
use eda.Prelude.{
  ℕ, ◌-◌, ◌^◌, ◌<◌, ◌≤◌, ◌≡◌, refl, sym, ◌∙◌, ap, Bool, true, false, List, [], ◌∷◌, Option, none,
  some, ltb, ◌==◌, if◌then◌else◌, arith, Bool-cases, inl, inr, ==_iff,
}
use eda.Hash.{
  Hash, is_equal, find_bucket, find_elem, is_power_of_2, new_bucket_cnt, move_loop, rehash,
  hash_init, hash_clear, hash_find,
}
use eda.Hash.Moves.{
  occurrences, at_bucket, move_loop-occurrences, all_occurrences, all_occurrences-one, bit_and-le,
  new_bucket_cnt-is_power_of_2,
}

-- How often the table holds an element: once or never
abbrev pub held : Hash → ℕ → ℕ
held h e = occurrences e (h.buckets (find_bucket h e))

-- What `hash` and `less` promise
pub record IsKeyed (h : Hash) : Type 0 where
  pub hashed : (a b : ℕ) → is_equal h a b ≡ true → h.hash a ≡ h.hash b
  pub self : (a : ℕ) → is_equal h a a ≡ true
  pub trans : (a b c : ℕ) → is_equal h a b ≡ true → is_equal h b c ≡ true → is_equal h a c ≡ true

pub record IsHash (h : Hash) : Type 0 where
  pub keyed : IsKeyed h
  pub power : is_power_of_2 h.bucket_cnt ≡ true
  pub few : h.elem_cnt < 2 ^ 32
  pub placed : (e i : ℕ) → (i == find_bucket h e) ≡ false → occurrences e (h.buckets i) ≡ 0
  pub once : (e : ℕ) → held h e ≤ 1
  pub unique : (a b : ℕ) → held h a ≡ 1 → held h b ≡ 1 → is_equal h a b ≡ true → a ≡ b

find_bucket_lt :
    (h : Hash) (e : ℕ) → is_power_of_2 h.bucket_cnt ≡ true → find_bucket h e < h.bucket_cnt
unfolding find_bucket
find_bucket_lt h e p = ground (arith, p, bit_and-le (h.hash e) (h.bucket_cnt - 1))

-- The buckets of a new table hold the elements of the old one.
moved-held :
    (h : Hash) (n e i : ℕ)
    → IsHash h
    → let h1 = record h { bucket_cnt = n } in
      occurrences e (move_loop h.bucket_cnt 0 h1 h.buckets (λ j. []) i)
      ≡ at_bucket h1 e i (held h e)
unfolding occurrences
moved-held h n e i t =
    let h1 = record h { bucket_cnt = n } in
    let lt = find_bucket_lt h e t.power in
    let all = all_occurrences-one e h.buckets 0 h.bucket_cnt (find_bucket h e) (t.placed e) in
    let total : all_occurrences e h.buckets 0 h.bucket_cnt ≡ held h e = ground (arith, all, lt) in
    move_loop-occurrences h.bucket_cnt h1 h.buckets (λ j. []) e i 0 ∙ rw total (omega arith)

abbrev moved : Hash → ℕ → Hash
moved h n =
    let h1 = record h { bucket_cnt = n } in
    record h1 { buckets = move_loop h.bucket_cnt 0 h1 h.buckets (λ j. []) }

moved-same : (h : Hash) (n e : ℕ) → IsHash h → held (moved h n) e ≡ held h e
unfolding find_bucket
moved-same h n e t =
    let b = find_bucket (record h { bucket_cnt = n }) e in
    let same : (b == b) ≡ true = ground arith in moved-held h n e b t ∙ rw same refl

moved-IsHash : (h : Hash) (n : ℕ) → is_power_of_2 n ≡ true → IsHash h → IsHash (moved h n)
unfolding find_bucket
moved-IsHash h n p t = record {
  keyed = record { hashed = t.keyed.hashed; self = t.keyed.self; trans = t.keyed.trans };
  power = p;
  few = t.few;
  placed = λ e i other. moved-held h n e i t ∙ rw other refl;
  once = λ e. omega (arith, moved-same h n e t, t.once e);
  unique =
      λ a b ha hb e. t.unique a b (sym (moved-same h n a t) ∙ ha) (sym (moved-same h n b t) ∙ hb) e;
}

-- `rehash` keeps the table and its elements, whether there is memory or not.
pub rehash-IsHash :
    (h : Hash) (memory : Bool)
    → IsHash h
    → IsHash (rehash h memory) × ((e : ℕ) → held (rehash h memory) e ≡ held h e)
unfolding rehash
rehash-IsHash h memory t = elim (Bool-cases (new_bucket_cnt h.elem_cnt == h.bucket_cnt)) [
  | inl u ↦ rw u (t, λ e. refl)
  | inr u ↦ rw u (elim (Bool-cases memory) [
    | inl v ↦ rw v (
      moved-IsHash h (new_bucket_cnt h.elem_cnt) (new_bucket_cnt-is_power_of_2 h.elem_cnt t.few) t,
      λ e. moved-same h (new_bucket_cnt h.elem_cnt) e t,
    )
    | inr v ↦ rw v (t, λ e. refl)
  ])
]

-- What the search in a bucket finds
abbrev pub Searched : Hash → List ℕ → ℕ → Option ℕ → Type 0
Searched h es e (some x) = (0 < occurrences x es) × (is_equal h x e ≡ true)
Searched h es e none = (x : ℕ) → 0 < occurrences x es → is_equal h x e ≡ false

find_elem-Searched : (h : Hash) (es : List ℕ) (e : ℕ) → Searched h es e (find_elem h es e)
unfolding find_elem occurrences
find_elem-Searched h [] e = λ x m. absurd (omega (arith, m))
find_elem-Searched h (y ∷ ys) e = elim (Bool-cases (is_equal h y e)) [
  | inl u ↦ rw u (ground arith, u)
  | inr u ↦ rw u (later u (find_elem h ys e) (find_elem-Searched h ys e))
]
  where
    later : is_equal h y e ≡ false → (r : Option ℕ) → Searched h ys e r → Searched h (y ∷ ys) e r
    later u (some x) f = (omega (arith, f.0), f.1)
    later u none f = λ x m. elim (Bool-cases (x == y)) [
      | inl v ↦ ap (λ z. is_equal h z e) ((==_iff x y).0 v) ∙ u
      | inr v ↦ f x (ground (arith, m, v))
    ]

-- An element of the table that is equal to `e`, or none
abbrev pub Finds : Hash → ℕ → Option ℕ → Type 0
Finds h e (some x) = (held h x ≡ 1) × (is_equal h x e ≡ true)
Finds h e none = (x : ℕ) → held h x ≡ 1 → is_equal h x e ≡ false

-- Equal elements have one bucket.
same_bucket :
    (h : Hash) (x e : ℕ) → IsKeyed h → is_equal h x e ≡ true → find_bucket h x ≡ find_bucket h e
unfolding find_bucket
same_bucket h x e k u = ap (λ y. bit_and y (h.bucket_cnt - 1)) (k.hashed x e u)

Searched-Finds :
    (h : Hash) (e : ℕ) (r : Option ℕ)
    → IsHash h
    → Searched h (h.buckets (find_bucket h e)) e r
    → Finds h e r
Searched-Finds h e (some x) t (m, u) =
    let at = ap (λ b. occurrences x (h.buckets b)) (same_bucket h x e t.keyed u) in
    (omega (arith, at, m, t.once x), u)
Searched-Finds h e none t f = λ x one. elim (Bool-cases (is_equal h x e)) [
  | inr u ↦ u
  | inl u ↦
      let at = ap (λ b. occurrences x (h.buckets b)) (same_bucket h x e t.keyed u) in
      f x (omega (arith, at, one))
]

-- `hash_find` returns an element of the table that is equal to the one asked for, if it holds one, and else NULL.
pub hash_find-Finds : (h : Hash) (e : ℕ) → IsHash h → Finds h e (hash_find h e)
unfolding hash_find
hash_find-Finds h e t =
    Searched-Finds h e (find_elem h (h.buckets (find_bucket h e)) e) t
      (find_elem-Searched h (h.buckets (find_bucket h e)) e)

-- A new table is valid and holds nothing.
abbrev pub Starts : Option Hash → Type 0
Starts none = ⊥
Starts (some h) = IsHash h × ((e : ℕ) → held h e ≡ 0)

nowhere : (e i : ℕ) → occurrences e (if ltb i 4 then [] else []) ≡ 0
unfolding occurrences
nowhere e i = elim (Bool-cases (ltb i 4)) [ inl u ↦ rw u refl | inr u ↦ rw u refl ]

pub hash_init-Starts :
    (hash : ℕ → ℕ) (less : ℕ → ℕ → Bool)
    → ((n : ℕ) (b : ℕ → List ℕ)
        → IsKeyed (record { elem_cnt = 0; bucket_cnt = n; buckets = b; hash = hash; less = less }))
    → Starts (hash_init hash less true)
unfolding hash_init hash_clear occurrences
hash_init-Starts hash less keyed = (
  record {
    keyed = keyed 4 _;
    power = refl;
    few = omega arith;
    placed = λ e i other. nowhere e i;
    once = λ e. omega (arith, nowhere e _);
    unique = λ a b ha hb u. absurd (omega (arith, nowhere a _, ha));
  },
  λ e. nowhere e _,
)
