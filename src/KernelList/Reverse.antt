-- ===== src/KernelList/Reverse.antt =====
-- The reversal of a list.
use eda.Prelude.{
  ℕ, zero, suc, ◌<◌, ◌≡◌, ◌≢◌, refl, sym, ◌∙◌, ap, true, false, ◌==◌, ==-ne, List, [], ◌∷◌, ◌++◌,
  arith, length, ok,
}
use eda.Prelude.Members.{mem, mem-append, IsDistinct, IsDistinct-snoc}
use eda.KernelList.{
  Links, tail_of, swap_links, reverse_loop, swap_ends, swap_inner, finish_reverse, list_reverse,
}
use eda.KernelList.Linked.{Linked, link, chain, Linked-append, mem-prev, relink}
use eda.KernelList.State.{nodes, IsList, Spares, first}
use eda.KernelList.Insert.{mem_ne}
use eda.KernelList.Remove.{Linked-next}
use eda.KernelList.Ends.{list_empty_lem}

abbrev pub rev : List ℕ → List ℕ
rev [] = []
rev (x ∷ xs) = rev xs ++ (x ∷ [])

pub mem-rev : (a : ℕ) (xs : List ℕ) → mem a (rev xs) ≡ mem a xs
unfolding mem
mem-rev a [] = refl
mem-rev a (x ∷ xs) = ground (arith, mem-append a (rev xs) (x ∷ []), mem-rev a xs)

pub IsDistinct-rev : (xs : List ℕ) → IsDistinct xs → IsDistinct (rev xs)
IsDistinct-rev [] d = tt
IsDistinct-rev (x ∷ xs) d = IsDistinct-snoc (rev xs) x (IsDistinct-rev xs d.1) (mem-rev x xs ∙ d.0)

-- Both pointers of every element swapped
abbrev flip : Links → Links
flip l = record { prev = l.next; next = l.prev }

Linked-flip : {l : Links} {q p : ℕ} {xs : List ℕ} → Linked l q p xs → Linked (flip l) p q (rev xs)
Linked-flip (link a b) = link b a
Linked-flip (chain a b s) = Linked-append (Linked-flip s) (link b a)

-- From `m`, the pointers of the elements `xs` are turned as seen in `l`; the others stay.
record Flipped (l m r : Links) (xs : List ℕ) : Type 0 where
  prev_in : (a : ℕ) → mem a xs ≡ true → r.prev a ≡ l.next a
  next_in : (a : ℕ) → mem a xs ≡ true → r.next a ≡ l.prev a
  prev_out : (a : ℕ) → mem a xs ≡ false → r.prev a ≡ m.prev a
  next_out : (a : ℕ) → mem a xs ≡ false → r.next a ≡ m.next a

reverse_loop-Flipped :
    {l : Links} {stop : ℕ} (fuel : ℕ) (m : Links) {p : ℕ} {xs : List ℕ}
    → Linked l stop p xs
    → mem 0 xs ≡ false
    → mem stop xs ≡ false
    → IsDistinct xs
    → ((a : ℕ) → mem a xs ≡ true → (m.prev a ≡ l.prev a) × (m.next a ≡ l.next a))
    → length xs < fuel
    → (r : Links) × (reverse_loop fuel m stop (first xs stop) ≡ ok r) × Flipped l m r xs
unfolding reverse_loop mem
reverse_loop-Flipped zero m s nz out d same lt = absurd (omega arith)
reverse_loop-Flipped {l} {stop} (suc fuel) m (link a b) nz out d same lt = (
  m,
  ground arith,
  record {
    prev_in = λ a h. ground arith;
    next_in = λ a h. ground arith;
    prev_out = λ a h. refl;
    next_out = λ a h. refl;
  },
)
reverse_loop-Flipped {l} {stop} (suc fuel) m (chain {x = x} {xs = xs} a b s) nz out d same lt =
    let here = same x (ground arith) in
    let next_is : (swap_links m x).prev x ≡ first xs stop = ground (arith, here, Linked-next s) in
    let (r, run, fl) =
      reverse_loop-Flipped fuel (swap_links m x) s (ground arith) (ground arith) d.1
        (λ c h. ground (arith, same c, mem_ne c x xs h d.0)) (omega arith) in
    let xs0 : (x == stop) ≡ false = ground arith in
    let x0 : (x == 0) ≡ false = ground arith in
    (
      r,
      rw (xs0, x0) (ap (reverse_loop fuel (swap_links m x) stop) next_is ∙ run),
      record {
        prev_in = λ c h. ground (arith, fl.prev_in c, fl.prev_out c, here, d.0);
        next_in = λ c h. ground (arith, fl.next_in c, fl.next_out c, here, d.0);
        prev_out = λ c h. ground (arith, fl.prev_out c);
        next_out = λ c h. ground (arith, fl.next_out c);
      },
    )

-- The pointers that the last two swaps leave, where the loop has left `r`: `x` was the first element
-- and `z` the last.
record Finished (r f : Links) (list x z : ℕ) : Type 0 where
  at_head : f.next list ≡ z
  at_tail : f.prev (tail_of list) ≡ x
  at_last : f.prev z ≡ list
  at_first : f.next x ≡ tail_of list
  other_prev : (a : ℕ) → a ≢ z → a ≢ tail_of list → f.prev a ≡ r.prev a
  other_next : (a : ℕ) → a ≢ x → a ≢ list → f.next a ≡ r.next a

finish_reverse-Finished :
    (r : Links) (list x z : ℕ)
    → r.next list ≡ x
    → r.prev (tail_of list) ≡ z
    → r.next x ≡ list
    → r.prev z ≡ tail_of list
    → (x == 0) ≡ false
    → (z == 0) ≡ false
    → x ≢ list
    → z ≢ tail_of list
    → (f : Links) × (finish_reverse r list ≡ ok f) × Finished r f list x z
finish_reverse-Finished r list x z hx hz xn zp x0 z0 xl zt =
    let m = swap_ends r list in
    let mh : m.next list ≡ z = ground (arith, hz) in
    let mt : m.prev (tail_of list) ≡ x = ground (arith, hx) in
    (
      swap_inner m (m.next list) (m.prev (tail_of list)),
      rw (mh, mt, x0, z0) refl,
      record {
        at_head = ground (arith, mh, mt);
        at_tail = ground (arith, mh, mt);
        at_last = ground (arith, mh, mt);
        at_first = ground (arith, mh, mt);
        other_prev = λ a n t. ground (arith, mh, mt);
        other_next = λ a n t. ground (arith, mh, mt);
      },
    )

next-prev : {l : Links} {q p : ℕ} {xs : List ℕ} → Linked l q p xs → l.next (l.prev q) ≡ q
next-prev {l} (link a b) = ap l.next b ∙ a
next-prev (chain a b s) = next-prev s

prev_first : {l : Links} {q p x : ℕ} {xs : List ℕ} → Linked l q p (x ∷ xs) → l.prev x ≡ p
prev_first (chain a b s) = b

last_in_list :
    {l : Links} {q p x : ℕ} {xs : List ℕ} → Linked l q p (x ∷ xs) → mem (l.prev q) (x ∷ xs) ≡ true
last_in_list (chain a b s) = mem-prev s

module _ {l r f : Links} {list x : ℕ} {xs : List ℕ} (v : IsList l list (x ∷ xs))
    (fl : Flipped l l r (x ∷ xs)) (fin : Finished r f list x (l.prev (tail_of list))) where
  other_links :
      ((a : ℕ) → mem a (x ∷ xs) ≡ true → a ≢ x → f.next a ≡ l.prev a)
      × ((a : ℕ) → mem a (x ∷ xs) ≡ true → a ≢ l.prev (tail_of list) → f.prev a ≡ l.next a)
  unfolding mem
  other_links = (
    λ a h n. ground (arith, fin.other_next a n, fl.next_in a, mem_ne a list (x ∷ xs) h, v.distinct),
    λ a h n.
        ground
          (arith, fin.other_prev a n, fl.prev_in a, mem_ne a (tail_of list) (x ∷ xs) h, v.distinct),
  )

  reversed-Linked :
      (ws : List ℕ)
      → Linked (flip l) list (tail_of list) ws
      → IsDistinct ws
      → ((a : ℕ) → mem a ws ≡ mem a (x ∷ xs))
      → Linked f (tail_of list) list ws
  unfolding mem
  reversed-Linked [] s d same = absurd (ground (arith, same x))
  reversed-Linked (z ∷ zs) (chain a b s) d same =
      let first_is : l.next list ≡ x = Linked-next v.linked in
      chain (fin.at_head ∙ a) (ap f.prev (sym a) ∙ fin.at_last) (
        relink s d (ap f.next first_is ∙ fin.at_first) (fin.at_tail ∙ sym first_is)
          (λ c h n. other_links.0 c (sym (same c) ∙ h) (λ e. n (e ∙ sym first_is)))
          (λ c h. other_links.1 c (sym (same c) ∙ ground arith) (λ e. mem_ne c z zs h d.0 (e ∙ a))))

  reversed-IsList : IsList f list (rev (x ∷ xs))
  unfolding mem
  reversed-IsList = record {
    head_prev = ground (
      arith,
      fin.other_prev list (λ e.
          mem_ne _ list (x ∷ xs) (last_in_list v.linked) (ground (arith, v.distinct)) (sym e)),
      fl.prev_out list,
      v.head_prev,
      v.distinct,
    );
    tail_next =
        ground (
          arith,
          fin.other_next (tail_of list),
          fl.next_out (tail_of list),
          v.tail_next,
          v.distinct,
        );
    linked =
        reversed-Linked (rev (x ∷ xs)) (Linked-flip v.linked)
          (IsDistinct-rev (x ∷ xs) v.distinct.1.1) (λ a. mem-rev a (x ∷ xs));
    distinct = (
      ground (arith, mem-rev list (x ∷ xs), v.distinct),
      (
        ground (arith, mem-rev (tail_of list) (x ∷ xs), v.distinct),
        IsDistinct-rev (x ∷ xs) v.distinct.1.1,
      ),
    );
    nonnull = ground (arith, mem-rev 0 (x ∷ xs), v.nonnull);
  }

-- Reversing a list leaves its elements in the opposite order and changes nothing outside the list.
pub list_reverse-IsList :
    {l : Links} {list : ℕ} (xs : List ℕ) (fuel : ℕ)
    → IsList l list xs
    → length xs < fuel
    → (f : Links) × (list_reverse fuel l list ≡ ok f)
      × IsList f list (rev xs)
      × Spares l f (nodes list xs)
unfolding list_reverse mem
list_reverse-IsList {l} {list} [] fuel v lt =
    (l, rw (list_empty_lem [] v) refl, v, record { prev = λ a h. refl; next = λ a h. refl })
list_reverse-IsList {l} {list} (x ∷ xs) fuel v lt =
    let list0 : (list == 0) ≡ false = ground (arith, v.nonnull) in
    let first_is = Linked-next v.linked in
    let last_in = last_in_list v.linked in
    let (r, run, fl) =
      reverse_loop-Flipped fuel l v.linked (ground (arith, v.nonnull)) (ground (arith, v.distinct))
        v.distinct.1.1 (λ a h. (refl, refl)) lt in
    let (f, ends, fin) =
      finish_reverse-Finished r list x (l.prev (tail_of list))
        (ground (arith, fl.next_out list, first_is, v.distinct))
        (ground (arith, fl.prev_out (tail_of list), v.distinct))
        (ground (arith, fl.next_in x, prev_first v.linked))
        (fl.prev_in (l.prev (tail_of list)) last_in ∙ next-prev v.linked)
        (ground (arith, v.nonnull))
        (==-ne _ 0 (mem_ne _ 0 (x ∷ xs) last_in (ground (arith, v.nonnull))))
        (ground (arith, v.distinct))
        (mem_ne _ (tail_of list) (x ∷ xs) last_in (ground (arith, v.distinct))) in
    (
      f,
      rw (list_empty_lem (x ∷ xs) v, list0, first_is, run, ends) refl,
      reversed-IsList v fl fin,
      record {
        prev = λ a h.
            let out : mem a (x ∷ xs) ≡ false = ground arith in
            fin.other_prev a (λ e. mem_ne _ a (x ∷ xs) last_in out (sym e)) (ground arith)
            ∙ fl.prev_out a out;
        next = λ a h.
            let out : mem a (x ∷ xs) ≡ false = ground arith in
            fin.other_next a (ground arith) (ground arith) ∙ fl.next_out a out;
      },
    )
