-- ===== src/Hash/Update.antt =====
-- Inserting, replacing and deleting elements.
use eda.Prelude.{
  ℕ, ◌^◌, ◌<◌, ◌≤◌, ◌≡◌, refl, sym, ◌∙◌, ap, Bool, true, false, List, Option, none, some, ◌==◌,
  if◌then◌else◌, arith, Bool-cases, inl, inr, ==_iff,
}
use eda.Hash.{
  Hash, is_equal, find_bucket, rehash, insert_elem, remove_elem, finish_insert, hash_insert,
  finish_replace, hash_replace, hash_find, finish_delete, hash_delete,
}
use eda.Hash.Moves.{occurrences, occurrences-erase, occurrences-update}
use eda.Hash.Table.{held, IsHash, rehash-IsHash, Finds, hash_find-Finds}

-- The table holds so often what the function says.
abbrev pub Holds : Hash → (ℕ → ℕ) → Type 0
Holds h f = IsHash h × ((e : ℕ) → held h e ≡ f e)

abbrev pub with_elem : ℕ → (ℕ → ℕ) → ℕ → ℕ
with_elem new f e = if e == new then 1 else f e

abbrev pub without : ℕ → (ℕ → ℕ) → ℕ → ℕ
without old f e = if e == old then 0 else f e

rehash-Holds : (h : Hash) (memory : Bool) (f : ℕ → ℕ) → Holds h f → Holds (rehash h memory) f
rehash-Holds h memory f (t, all) =
    let (kept, same) = rehash-IsHash h memory t in (kept, λ e. same e ∙ all e)

is_equal_comm : (h : Hash) (a b : ℕ) → is_equal h a b ≡ true → is_equal h b a ≡ true
is_equal_comm h a b u = ground (arith, u)

-- A table with other elements
held-is :
    (h : Hash) (n : ℕ) (buckets : ℕ → List ℕ) (e : ℕ)
    → held (record h { elem_cnt = n; buckets = buckets }) e
      ≡ occurrences e (buckets (find_bucket h e))
unfolding find_bucket
held-is h n buckets e = refl

Holds-with :
    (h : Hash) (n : ℕ) (buckets : ℕ → List ℕ) (f : ℕ → ℕ)
    → IsHash h
    → n < 2 ^ 32
    → ((e i : ℕ) → (i == find_bucket h e) ≡ false → occurrences e (buckets i) ≡ 0)
    → ((e : ℕ) → occurrences e (buckets (find_bucket h e)) ≡ f e)
    → ((e : ℕ) → f e ≤ 1)
    → ((a b : ℕ) → f a ≡ 1 → f b ≡ 1 → is_equal h a b ≡ true → a ≡ b)
    → Holds (record h { elem_cnt = n; buckets = buckets }) f
unfolding find_bucket
Holds-with h n buckets f t few placed all once unique = (
  record {
    keyed = record { hashed = t.keyed.hashed; self = t.keyed.self; trans = t.keyed.trans };
    power = t.power;
    few = few;
    placed = placed;
    once = λ e. omega (arith, all e, once e);
    unique = λ a b ha hb u. unique a b (sym (all a) ∙ ha) (sym (all b) ∙ hb) u;
  },
  all,
)

module _ (h : Hash) (new : ℕ) (t : IsHash h) (alone : Finds h new none) where
  absent : held h new ≡ 0
  absent = elim (Bool-cases (held h new == 1)) [
    | inl u ↦ ground (arith, alone new ((==_iff (held h new) 1).0 u), t.keyed.self new)
    | inr u ↦ ground (arith, u, t.once new)
  ]

  insert_elem-Holds : Holds (insert_elem h (find_bucket h new) new) (with_elem new (held h))
  insert_elem-Holds =
      let b = find_bucket h new in
      let same : (e : ℕ) → e ≡ new → (find_bucket h e ≡ b) × (held h e ≡ 0) =
        λ e at. (ap (find_bucket h) at, ap (held h) at ∙ absent) in
      Holds-with h _ _ (with_elem new (held h)) t (omega arith)
        (λ e i other.
          occurrences-update e i b new h.buckets ∙ ground (arith, same e, t.placed e i, other))
        (λ e. occurrences-update e (find_bucket h e) b new h.buckets ∙ ground (arith, same e))
        (λ e. ground (arith, t.once e))
        (λ x y hx hy u. ground (
          arith,
          t.unique x y,
          alone x,
          alone y,
          is_equal_comm h x y,
          hx,
          hy,
          u,
          ap (λ z. is_equal h x z) {x = y} {y = new},
          ap (λ z. is_equal h y z) {x = x} {y = new},
        ))

module _ (h : Hash) (old : ℕ) (t : IsHash h) where
  remove_elem-Holds : Holds (remove_elem h old) (without old (held h))
  remove_elem-Holds =
      Holds-with h _ _ (without old (held h)) t (omega arith)
        (λ e i other. occurrences-erase e old (h.buckets i) ∙ ground (arith, t.placed e i, other))
        (λ e. occurrences-erase e old (h.buckets (find_bucket h e)) ∙ ground (arith, t.once e))
        (λ e. ground (arith, t.once e)) (λ x y hx hy u. ground (arith, t.unique x y, hx, hy, u))

-- The table without the old element has none that is equal to the new one.
remove_elem-Finds :
    (h : Hash) (new old : ℕ)
    → IsHash h
    → Finds h new (some old)
    → Finds (remove_elem h old) new none
remove_elem-Finds h new old t (m, u) = λ x hx. elim (Bool-cases (is_equal h x new)) [
  | inr v ↦ v
  | inl v ↦
      let all = (remove_elem-Holds h old t).1 x in
      let same = t.keyed.trans x new old v (is_equal_comm h old new u) in
      ground (arith, all, hx, t.unique x old, m, same)
]

remove_insert-Holds :
    (h : Hash) (new old : ℕ)
    → IsHash h
    → Finds h new (some old)
    → Holds
        (insert_elem (remove_elem h old) (find_bucket h new) new)
        (with_elem new (without old (held h)))
unfolding find_bucket
remove_insert-Holds h new old t f =
    let (kept, less) = remove_elem-Holds h old t in
    let (more, all) =
      insert_elem-Holds (remove_elem h old) new kept (remove_elem-Finds h new old t f) in
    (more, λ e. all e ∙ ap (λ n. if e == new then 1 else n) (less e))

-- The results of the operations and what the table holds afterwards
abbrev pub Inserts : Hash → ℕ → Option ℕ × Hash → Type 0
Inserts h new (none, h1) = Finds h new none × Holds h1 (with_elem new (held h))
Inserts h new (some old, h1) = Finds h new (some old) × Holds h1 (held h)

abbrev pub Replaces : Hash → ℕ → Option ℕ × Hash → Type 0
Replaces h new (none, h1) = Finds h new none × Holds h1 (with_elem new (held h))
Replaces h new (some old, h1) =
    Finds h new (some old) × Holds h1 (with_elem new (without old (held h)))

abbrev pub Deletes : Hash → ℕ → Option ℕ × Hash → Type 0
Deletes h e (none, h1) = Finds h e none × Holds h1 (held h)
Deletes h e (some found, h1) = Finds h e (some found) × Holds h1 (without found (held h))

finish_insert-Inserts :
    (h : Hash) (new : ℕ) (memory : Bool) (r : Option ℕ)
    → IsHash h
    → Finds h new r
    → Inserts h new (finish_insert h new memory r)
finish_insert-Inserts h new memory none t f =
    (f, rehash-Holds _ memory _ (insert_elem-Holds h new t f))
finish_insert-Inserts h new memory (some old) t f =
    (f, rehash-Holds h memory (held h) (t, λ e. refl))

finish_replace-Replaces :
    (h : Hash) (new : ℕ) (memory : Bool) (r : Option ℕ)
    → IsHash h
    → Finds h new r
    → Replaces h new (finish_replace h new memory r)
finish_replace-Replaces h new memory none t f =
    (f, rehash-Holds _ memory _ (insert_elem-Holds h new t f))
finish_replace-Replaces h new memory (some old) t f =
    (f, rehash-Holds _ memory _ (remove_insert-Holds h new old t f))

finish_delete-Deletes :
    (h : Hash) (e : ℕ) (memory : Bool) (r : Option ℕ)
    → IsHash h
    → Finds h e r
    → Deletes h e (finish_delete h memory r)
finish_delete-Deletes h e memory none t f = (f, (t, λ x. refl))
finish_delete-Deletes h e memory (some x) t f =
    (f, rehash-Holds _ memory _ (remove_elem-Holds h x t))

-- In a valid table hash_insert returns an element equal to the new one and changes nothing, if the table
-- holds one, and else NULL, with the new element added; hash_replace returns it likewise and puts the new
-- element in its place; hash_delete returns it and takes it off. The table stays valid, and holds its other
-- elements, whether there was memory for other buckets or not.
pub hash_insert-Inserts :
    (h : Hash) (e : ℕ) (memory : Bool)
    → IsHash h
    → Inserts h e (hash_insert h e memory)
      × Replaces h e (hash_replace h e memory)
      × Deletes h e (hash_delete h e memory)
unfolding hash_insert hash_replace hash_delete hash_find
hash_insert-Inserts h e memory t =
    let f = hash_find-Finds h e t in
    (
      finish_insert-Inserts h e memory (hash_find h e) t f,
      finish_replace-Replaces h e memory (hash_find h e) t f,
      finish_delete-Deletes h e memory (hash_find h e) t f,
    )

Inserts-IsHash : (h : Hash) (e : ℕ) (r : Option ℕ × Hash) → Inserts h e r → IsHash r.1
Inserts-IsHash h e (none, h1) (f, (t, all)) = t
Inserts-IsHash h e (some old, h1) (f, (t, all)) = t

pub IsHash-insert :
    (h : Hash) (e : ℕ) (memory : Bool) → IsHash h → IsHash (hash_insert h e memory).1
IsHash-insert h e memory t =
    Inserts-IsHash h e (hash_insert h e memory) (hash_insert-Inserts h e memory t).0
