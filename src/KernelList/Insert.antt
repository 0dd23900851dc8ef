-- ===== src/KernelList/Insert.antt =====
-- Insertion into a list.
use eda.Prelude.{
  ℕ, ◌≡◌, ◌≢◌, refl, sym, ap, ◌||◌, Bool, true, false, not, ◌==◌, ==-ne, ==_iff, List, [], ◌∷◌,
  ◌++◌, arith, Bool-cases, inl, inr, ok, ◌>>◌, assert,
}
use eda.Prelude.Members.{mem, mem-append, IsDistinct}
use eda.KernelList.{Links, is_null, tail_of, is_interior, is_tail, insert, list_insert}
use eda.KernelList.Linked.{Linked, link, chain, mem-prev, frame, relink}
use eda.KernelList.State.{
  nodes, IsList, Spares, first, Rest, cut, paste, IsDistinct-split, IsDistinct-join,
}

-- What is known where the elements `xs` and `ys` of a list meet
pub record Meets (l : Links) (list : ℕ) (xs ys : List ℕ) : Type 0 where
  pub before : Linked l (first ys (tail_of list)) list xs
  pub behind : Rest l (tail_of list) ys
  pub left : IsDistinct (list ∷ xs)
  pub right : IsDistinct ys
  pub apart : (a : ℕ) → mem a xs ≡ true → mem a ys ≡ false
  pub ends :
      (mem list xs ≡ false)
      × (mem list ys ≡ false)
      × (mem (tail_of list) xs ≡ false)
      × (mem (tail_of list) ys ≡ false)
  pub left_null : mem 0 (list ∷ xs) ≡ false
  pub right_null : mem 0 (tail_of list ∷ ys) ≡ false

pub IsList-Meets :
    {l : Links} {list : ℕ} (xs ys : List ℕ) → IsList l list (xs ++ ys) → Meets l list xs ys
unfolding mem
IsList-Meets {list = list} xs ys v =
    let (b, r) = cut xs ys v.linked in
    let (dl, dr, apart) = IsDistinct-split xs ys v.distinct.1.1 in
    record {
      before = b;
      behind = r;
      left = (ground (arith, v.distinct, mem-append list xs ys), dl);
      right = dr;
      apart = apart;
      ends = ground (arith, v.distinct, mem-append list xs ys, mem-append (tail_of list) xs ys);
      left_null = ground (arith, v.nonnull, mem-append 0 xs ys);
      right_null = ground (arith, v.nonnull, mem-append 0 xs ys);
    }

-- The element behind the cut is none of those before it.
pub first-apart :
    {l : Links} {list : ℕ} (xs ys : List ℕ)
    → Meets l list xs ys
    → mem (first ys (tail_of list)) (list ∷ xs) ≡ false
unfolding mem
first-apart {list = list} xs [] c = ground (arith, c.ends)
first-apart {list = list} xs (y ∷ ys) c = ground (arith, c.ends, c.apart y)

-- Nor is the last element before the cut one of those behind it.
pub prev-apart :
    {l : Links} {list : ℕ} (xs ys : List ℕ)
    → Meets l list xs ys
    → mem (l.prev (first ys (tail_of list))) ys ≡ false
unfolding mem
prev-apart {l} {list} xs ys c = go (l.prev (first ys (tail_of list))) (mem-prev c.before)
  where
    go : (a : ℕ) → mem a (list ∷ xs) ≡ true → mem a ys ≡ false
    go a h = elim (Bool-cases (a == list)) [
      | inl e ↦ rw ((==_iff a list).0 e) c.ends.1
      | inr e ↦ c.apart a (ground arith)
    ]

pub mem_ne : (a b : ℕ) (xs : List ℕ) → mem a xs ≡ true → mem b xs ≡ false → a ≢ b
mem_ne a b xs h k e = ground (arith, ap (λ c. mem c xs) e)

pub fresh-first : {e stop : ℕ} (ys : List ℕ) → e ≢ stop → mem e ys ≡ false → e ≢ first ys stop
unfolding mem
fresh-first [] n o = n
fresh-first (y ∷ ys) n o = ground arith

pub rest-joint :
    {l : Links} {stop e : ℕ} (ys : List ℕ)
    → Linked l (first ys stop) e []
    → Rest l stop ys
    → Linked l stop e ys
rest-joint [] s r = s
rest-joint {l} {stop} {e} (y ∷ ys) s r = joined s
  where
    joined : Linked l y e [] → Linked l stop e (y ∷ ys)
    joined (link a b) = chain a b r

-- The links before the new element, and those behind it
insert-before :
    {l : Links} {b p : ℕ} (e : ℕ) {xs : List ℕ}
    → Linked l b p xs
    → IsDistinct (p ∷ xs)
    → mem b (p ∷ xs) ≡ false
    → mem e (p ∷ xs) ≡ false
    → e ≢ b
    → Linked (insert l b e) e p xs
unfolding mem
insert-before {l} {b} {p} e {xs} s d ob oe ne =
    relink s d (ground arith) (ground arith) (λ a h u. ground arith) (λ a h. ground arith)

insert-behind :
    {l : Links} {list e : ℕ} (xs ys : List ℕ)
    → Meets l list xs ys
    → e ≢ tail_of list
    → mem e ys ≡ false
    → Rest (insert l (first ys (tail_of list)) e) (tail_of list) ys
unfolding mem
insert-behind xs [] c ne oe = tt
insert-behind {l} {list} {e} xs (y ∷ ys) c ne oe =
    frame c.behind
      (λ a h. ground (
        arith,
        mem_ne a (l.prev y) (y ∷ ys) h (prev-apart xs (y ∷ ys) c),
        mem_ne a e (y ∷ ys) h oe,
      ))
      (λ a h. ground (arith, c.right.0, c.ends, mem-append a ys (tail_of list ∷ []), mem_ne a e ys))

insert-joint : (l : Links) {b e : ℕ} → e ≢ b → e ≢ l.prev b → Linked (insert l b e) b e []
insert-joint l {b} {e} ne np = link (ground arith) (ground arith)

pub insert-IsList :
    {l : Links} {list e : ℕ} (xs ys : List ℕ)
    → IsList l list (xs ++ ys)
    → e ≢ 0
    → mem e (nodes list (xs ++ ys)) ≡ false
    → IsList (insert l (first ys (tail_of list)) e) list (xs ++ (e ∷ ys))
unfolding mem
insert-IsList {l} {list} {e} xs ys v ne out =
    let c = IsList-Meets xs ys v in
    let b = first ys (tail_of list) in
    let fb = first-apart xs ys c in
    let le = mem-prev c.before in
    let oe = mem-append e xs ys in
    let ob : mem e ys ≡ false = ground arith in
    let ol : mem e (list ∷ xs) ≡ false = ground arith in
    let nt : e ≢ tail_of list = ground arith in
    let nb : e ≢ b = fresh-first ys nt ob in
    let np : e ≢ l.prev b = λ u. mem_ne (l.prev b) e (list ∷ xs) le ol (sym u) in
    record {
      head_prev = ground (arith, v.head_prev);
      tail_next = ground (arith, v.tail_next);
      linked =
          paste xs (e ∷ ys) (insert-before e c.before c.left fb ol nb)
            (rest-joint ys (insert-joint l nb np) (insert-behind xs ys c nt ob));
      distinct = (
        ground (arith, v.distinct, mem-append list xs ys, mem-append list xs (e ∷ ys)),
        (
          ground (
            arith,
            v.distinct,
            mem-append (tail_of list) xs ys,
            mem-append (tail_of list) xs (e ∷ ys),
          ),
          IsDistinct-join xs (e ∷ ys) c.left.1 (ob, c.right)
              (λ a h. ground (arith, c.apart a, mem_ne a e xs h (ground arith))),
        ),
      );
      nonnull = ground (arith, v.nonnull, mem-append 0 xs ys, mem-append 0 xs (e ∷ ys));
    }

insert-Spares :
    {l : Links} {list : ℕ} (e : ℕ) (xs ys : List ℕ)
    → IsList l list (xs ++ ys)
    → Spares l (insert l (first ys (tail_of list)) e) (nodes list (xs ++ (e ∷ ys)))
unfolding mem
insert-Spares {l} {list} e xs ys v =
    let c = IsList-Meets xs ys v in
    record {
      prev = λ a h. ground (arith, first_out a ys, mem-append a xs (e ∷ ys));
      next = λ a h. ground (
        arith,
        first_out a ys,
        mem-append a xs (e ∷ ys),
        mem-prev c.before,
        mem_ne (l.prev (first ys (tail_of list))) a (list ∷ xs),
      );
    }
  where
    first_out :
        (a : ℕ) (ys : List ℕ)
        → a ≢ tail_of list
        → mem a ys ≡ false
        → (a == first ys (tail_of list)) ≡ false
    first_out a [] n o = ground arith
    first_out a (y ∷ ys) n o = ground arith

list_insert-insert :
    (l : Links) (b e : ℕ)
    → (b == 0) ≡ false
    → (l.prev b == 0) ≡ false
    → (e == 0) ≡ false
    → list_insert l b e ≡ ok (insert l b e)
unfolding list_insert is_interior is_tail
list_insert-insert l b e b0 p0 e0 = rw (b0, p0, e0) (go (is_null (l.next b)))
  where
    go : (c : Bool) → (assert (not c || c) >> ok (insert l b e)) ≡ ok (insert l b e)
    go true = refl
    go false = refl

-- Inserting a new element before an element of a list, or before its tail, puts it there and changes
-- nothing outside this list.
pub list_insert-IsList :
    {l : Links} {list e : ℕ} (xs ys : List ℕ)
    → IsList l list (xs ++ ys)
    → e ≢ 0
    → mem e (nodes list (xs ++ ys)) ≡ false
    → (m : Links) × (list_insert l (first ys (tail_of list)) e ≡ ok m)
      × IsList m list (xs ++ (e ∷ ys))
      × Spares l m (nodes list (xs ++ (e ∷ ys)))
unfolding mem list_insert is_interior is_tail
list_insert-IsList {l} {list} {e} xs ys v ne out =
    let c = IsList-Meets xs ys v in
    let p0 : (l.prev (first ys (tail_of list)) == 0) ≡ false =
      ==-ne _ 0 (mem_ne _ 0 (list ∷ xs) (mem-prev c.before) c.left_null) in
    let b0 : (first ys (tail_of list) == 0) ≡ false = first_nonnull ys c.right_null in
    (
      insert l (first ys (tail_of list)) e,
      list_insert-insert l _ e b0 p0 (==-ne e 0 ne),
      insert-IsList xs ys v ne out,
      insert-Spares e xs ys v,
    )
  where
    first_nonnull :
        (ys : List ℕ) → mem 0 (tail_of list ∷ ys) ≡ false → (first ys (tail_of list) == 0) ≡ false
    first_nonnull [] h = ground arith
    first_nonnull (y ∷ ys) h = ground arith
