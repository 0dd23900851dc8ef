-- ===== src/KernelList/Remove.antt =====
-- Removal from a list.
use eda.Prelude.{
  ℕ, ◌≡◌, ◌≢◌, refl, ◌∙◌, ap, true, false, ◌==◌, ==-ne, List, [], ◌∷◌, ◌++◌, arith, if◌then◌else◌,
  ok,
}
use eda.Prelude.Members.{mem, mem-append, IsDistinct}
use eda.KernelList.{Links, tail_of, is_interior, unlink, list_remove}
use eda.KernelList.Linked.{Linked, link, chain, mem-prev, mem-next, frame, relink}
use eda.KernelList.State.{nodes, IsList, Spares, first, Rest, paste, IsDistinct-join}
use eda.KernelList.Insert.{Meets, IsList-Meets, prev-apart, mem_ne}

-- What is known around an element `e` of a list: the elements before and behind it.
pub record Around (l : Links) (list e : ℕ) (xs ys : List ℕ) : Type 0 where
  pub before : Linked l e list xs
  pub behind : Linked l (tail_of list) e ys
  pub next_is : l.next e ≡ first ys (tail_of list)
  pub prev_in : mem (l.prev e) (list ∷ xs) ≡ true
  pub left : IsDistinct (list ∷ xs)
  pub right : IsDistinct (e ∷ ys)
  pub apart : (a : ℕ) → mem a xs ≡ true → mem a (e ∷ ys) ≡ false
  pub ends :
      (mem list (e ∷ ys) ≡ false)
      × (mem (tail_of list) xs ≡ false)
      × (mem (tail_of list) (e ∷ ys) ≡ false)
  pub first_out : mem (first ys (tail_of list)) (list ∷ xs) ≡ false
  pub prev_out : mem (l.prev e) (e ∷ ys) ≡ false
  pub nonnull : (e == 0) ≡ false
  pub prev_nonnull : (l.prev e == 0) ≡ false
  pub next_nonnull : (l.next e == 0) ≡ false

pub Linked-next : {l : Links} {q p : ℕ} {xs : List ℕ} → Linked l q p xs → l.next p ≡ first xs q
Linked-next (link a b) = a
Linked-next (chain a b s) = a

pub IsList-Around :
    {l : Links} {list : ℕ} (xs ys : List ℕ) (e : ℕ)
    → IsList l list (xs ++ (e ∷ ys))
    → Around l list e xs ys
unfolding mem
IsList-Around {l} {list} xs ys e v =
    let c = IsList-Meets xs (e ∷ ys) v in
    let prev_in = mem-prev c.before in
    let next_is = Linked-next c.behind in
    record {
      before = c.before;
      behind = c.behind;
      next_is = next_is;
      prev_in = prev_in;
      left = c.left;
      right = c.right;
      apart = c.apart;
      ends = ground (arith, c.ends);
      first_out = first_out ys c;
      prev_out = prev-apart xs (e ∷ ys) c;
      nonnull = ground (arith, c.right_null);
      prev_nonnull = ==-ne _ 0 (mem_ne _ 0 (list ∷ xs) prev_in c.left_null);
      next_nonnull = ==-ne _ 0 (
          mem_ne _ 0 (ys ++ (tail_of list ∷ [])) (mem-next c.behind)
            (ground (arith, c.right_null, mem-append 0 ys (tail_of list ∷ []))));
    }
  where
    first_out :
        (ys : List ℕ) → Meets l list xs (e ∷ ys) → mem (first ys (tail_of list)) (list ∷ xs) ≡ false
    first_out [] c = ground (arith, c.ends)
    first_out (y ∷ ys) c = ground (arith, c.ends, c.apart y)

-- The pointers behind the two assignments
unlink-next :
    (l : Links) (e a : ℕ) → (unlink l e).next a ≡ (if a == l.prev e then l.next e else l.next a)
unlink-next l e a = refl

unlink-prev :
    (l : Links) (e a : ℕ)
    → e ≢ l.prev e
    → (unlink l e).prev a ≡ (if a == l.next e then l.prev e else l.prev a)
unlink-prev l e a n = rw (==-ne e (l.prev e) n) refl

module _ {l : Links} {list : ℕ} (e : ℕ) where
  unlink-before :
      (xs ys : List ℕ)
      → Around l list e xs ys
      → Linked (unlink l e) (first ys (tail_of list)) list xs
  unfolding mem
  unlink-before xs ys c =
      let f = first ys (tail_of list) in
      let ne : e ≢ l.prev e = ground (arith, c.prev_out) in
      relink c.before c.left (ground (arith, unlink-next l e (l.prev e), c.next_is))
        (ground (arith, unlink-prev l e f ne, c.next_is))
        (λ a h u. ground (arith, unlink-next l e a))
        (λ a h.
          ground (arith, unlink-prev l e a ne, c.next_is, mem_ne a f (list ∷ xs), c.first_out))

  unlink-behind : (xs ys : List ℕ) → Around l list e xs ys → Rest (unlink l e) (tail_of list) ys
  unfolding mem
  unlink-behind xs [] c = tt
  unlink-behind xs (y ∷ ys) c =
      let ne : e ≢ l.prev e = ground (arith, c.prev_out) in
      frame (linked_behind c.behind)
        (λ a h. ground (arith, unlink-next l e a, mem_ne a (l.prev e) (y ∷ ys) h, c.prev_out))
        (λ a h. ground (
          arith,
          unlink-prev l e a ne,
          c.next_is,
          c.right,
          c.ends,
          mem-append a ys (tail_of list ∷ []),
        ))
    where
      linked_behind : Linked l (tail_of list) e (y ∷ ys) → Linked l (tail_of list) y ys
      linked_behind (chain a b s) = s

  pub unlink-IsList :
      (xs ys : List ℕ) → IsList l list (xs ++ (e ∷ ys)) → IsList (unlink l e) list (xs ++ ys)
  unfolding mem
  unlink-IsList xs ys v =
      let c = IsList-Around xs ys e v in
      let ne : e ≢ l.prev e = ground (arith, c.prev_out) in
      let f = first ys (tail_of list) in
      record {
        head_prev = ground (arith, unlink-prev l e list ne, c.next_is, c.first_out, v.head_prev);
        tail_next = ground (
          arith,
          unlink-next l e (tail_of list),
          mem_ne (l.prev e) (tail_of list) (list ∷ xs) c.prev_in,
          v.tail_next,
          c.ends,
        );
        linked = paste xs ys (unlink-before xs ys c) (unlink-behind xs ys c);
        distinct = (
          ground (arith, v.distinct, mem-append list xs ys, mem-append list xs (e ∷ ys)),
          (
            ground (
              arith,
              v.distinct,
              mem-append (tail_of list) xs ys,
              mem-append (tail_of list) xs (e ∷ ys),
            ),
            IsDistinct-join xs ys c.left.1 c.right.1 (λ a h. ground (arith, c.apart a)),
          ),
        );
        nonnull = ground (arith, v.nonnull, mem-append 0 xs ys, mem-append 0 xs (e ∷ ys));
      }

  unlink-Spares :
      (xs ys : List ℕ)
      → IsList l list (xs ++ (e ∷ ys))
      → Spares l (unlink l e) (nodes list (xs ++ (e ∷ ys)))
  unfolding mem
  unlink-Spares xs ys v =
      let c = IsList-Around xs ys e v in
      let ne : e ≢ l.prev e = ground (arith, c.prev_out) in
      record {
        prev = λ a h.
            ground
              (arith, unlink-prev l e a ne, c.next_is, first_other a ys, mem-append a xs (e ∷ ys));
        next = λ a h. ground (
          arith,
          unlink-next l e a,
          mem-append a xs (e ∷ ys),
          mem_ne (l.prev e) a (list ∷ xs) c.prev_in,
        );
      }
    where
      first_other :
          (a : ℕ) (ys : List ℕ)
          → a ≢ tail_of list
          → mem a ys ≡ false
          → (a == first ys (tail_of list)) ≡ false
      first_other a [] n o = ground arith
      first_other a (y ∷ ys) n o = ground arith

list_remove-unlink :
    (l : Links) (e : ℕ)
    → (e == 0) ≡ false
    → (l.prev e == 0) ≡ false
    → (l.next e == 0) ≡ false
    → list_remove l e ≡ ok ((unlink l e).next e, unlink l e)
unfolding list_remove is_interior
list_remove-unlink l e e0 p0 n0 = rw (e0, p0, n0) refl

-- Removing an element takes it off its list, returns the element behind it, or the tail, and changes
-- nothing outside the list; the pointers of the element itself stay.
pub list_remove-IsList :
    {l : Links} {list : ℕ} (xs ys : List ℕ) (e : ℕ)
    → IsList l list (xs ++ (e ∷ ys))
    → (m : Links) × (list_remove l e ≡ ok (first ys (tail_of list), m))
      × IsList m list (xs ++ ys)
      × Spares l m (nodes list (xs ++ (e ∷ ys)))
      × (m.next e ≡ l.next e)
      × (m.prev e ≡ l.prev e)
unfolding mem
list_remove-IsList {l} {list} xs ys e v =
    let c = IsList-Around xs ys e v in
    let ne : e ≢ l.prev e = ground (arith, c.prev_out) in
    let other : l.next e ≢ e =
      mem_ne (l.next e) e (ys ++ (tail_of list ∷ [])) (mem-next c.behind)
        (ground (arith, c.right, c.ends, mem-append e ys (tail_of list ∷ []))) in
    let same_next : (unlink l e).next e ≡ l.next e = ground (arith, unlink-next l e e) in
    (
      unlink l e,
      list_remove-unlink l e c.nonnull c.prev_nonnull c.next_nonnull
          ∙ ap (λ n. ok (n, unlink l e)) (same_next ∙ c.next_is),
      unlink-IsList e xs ys v,
      unlink-Spares e xs ys v,
      same_next,
      ground (arith, unlink-prev l e e ne),
    )
