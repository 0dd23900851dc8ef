-- ===== src/KernelList/Merge.antt =====
-- The merge of two runs in place.
use mathlib.Core.Path.{subst}
use mathlib.Core.List.{append_assoc}
use eda.Prelude.{
  ℕ, zero, suc, ◌+◌, ◌<◌, ◌≡◌, refl, sym, ◌∙◌, ap, ◌&&◌, ◌||◌, Bool, true, false, not, ◌==◌, ==-ne,
  List, [], ◌∷◌, ◌++◌, arith, Bool-cases, inl, inr, if◌then◌else◌, length, Result, ok, ◌>>◌, assert,
}
use eda.Prelude.Members.{mem, mem-append}
use eda.KernelList.{
  Links, tail_of, is_null, is_interior, is_tail, insert, unlink, splice, list_next, list_prev,
  list_splice,
}
use eda.KernelList.Ordered.{Less}
use eda.KernelList.Sort.{merge_loop}
use eda.KernelList.Linked.{Linked, link, chain}
use eda.KernelList.State.{nodes, IsList, first}
use eda.KernelList.Insert.{insert-IsList, fresh-first}
use eda.KernelList.Remove.{IsList-Around, unlink-IsList}
use eda.KernelList.Size.{list_next_lem}

pub first-append : (xs ys : List ℕ) (stop : ℕ) → first (xs ++ ys) stop ≡ first xs (first ys stop)
first-append [] ys stop = refl
first-append (x ∷ xs) ys stop = refl

pub list_prev_lem :
    (l : Links) (e : ℕ) → (e == 0) ≡ false → (l.prev e == 0) ≡ false → list_prev l e ≡ ok (l.prev e)
unfolding list_prev is_interior is_tail
list_prev_lem l e e0 p0 = rw (e0, p0) (go (is_null (l.next e)))
  where
    go : (c : Bool) → (assert (not c || c) >> ok (l.prev e)) ≡ ok (l.prev e)
    go true = refl
    go false = refl

-- Moving one element is removing it and inserting it again.
splice-insert : (l : Links) (before x : ℕ) → splice l before x x ≡ insert (unlink l x) before x
splice-insert l before x = refl

list_splice_lem :
    (l : Links) (before x end : ℕ)
    → (before == 0) ≡ false
    → (l.prev before == 0) ≡ false
    → (x == end) ≡ false
    → list_prev l end ≡ ok x
    → (x == 0) ≡ false
    → (l.prev x == 0) ≡ false
    → (l.next x == 0) ≡ false
    → list_splice l before x end ≡ ok (insert (unlink l x) before x)
unfolding list_splice is_interior is_tail
list_splice_lem l before x end b0 bp ne back x0 p0 n0 =
    rw (b0, bp, ne, back, x0, p0, n0) (go (is_null (l.next before)))
  where
    go :
        (c : Bool)
        → (assert (not c || c) >> ok (insert (unlink l x) before x))
          ≡ ok (insert (unlink l x) before x)
    go true = refl
    go false = refl

pub Linked-back : {l : Links} {q p : ℕ} {xs : List ℕ} → Linked l q p xs → l.prev (first xs q) ≡ p
Linked-back (link a b) = b
Linked-back (chain a b s) = b

-- `list_splice` moves the element `x` of a list to the place before an earlier element `b`.
list_splice-IsList :
    {l : Links} {list : ℕ} (xs : List ℕ) (b : ℕ) (ms : List ℕ) (x : ℕ) (ys : List ℕ)
    → IsList l list (xs ++ ((b ∷ ms) ++ (x ∷ ys)))
    → (m : Links) × (list_next l x ≡ ok (first ys (tail_of list)))
      × (list_prev l (first ys (tail_of list)) ≡ ok x)
      × (list_splice l b x (first ys (tail_of list)) ≡ ok m)
      × IsList m list (xs ++ (x ∷ ((b ∷ ms) ++ ys)))
unfolding mem
list_splice-IsList {l} {list} xs b ms x ys v =
    let cb = IsList-Around xs (ms ++ (x ∷ ys)) b v in
    let v1 : IsList l list ((xs ++ (b ∷ ms)) ++ (x ∷ ys)) =
      subst (λ zs. IsList l list zs) (sym (append_assoc xs (b ∷ ms) (x ∷ ys))) v in
    let c = IsList-Around (xs ++ (b ∷ ms)) ys x v1 in
    let v2 : IsList (unlink l x) list (xs ++ ((b ∷ ms) ++ ys)) =
      subst (λ zs. IsList (unlink l x) list zs) (append_assoc xs (b ∷ ms) ys)
        (unlink-IsList x (xs ++ (b ∷ ms)) ys v1) in
    let back : l.prev (first ys (tail_of list)) ≡ x = Linked-back c.behind in
    let n0 : (first ys (tail_of list) == 0) ≡ false = rw (sym c.next_is) c.next_nonnull in
    let not_end : (x == first ys (tail_of list)) ≡ false =
      ==-ne x _ (fresh-first ys (ground (arith, c.ends)) (ground (arith, c.right))) in
    let prev_ok : list_prev l (first ys (tail_of list)) ≡ ok x =
      list_prev_lem l _ n0 (rw back c.nonnull) ∙ ap ok back in
    let fresh : mem x (nodes list (xs ++ ((b ∷ ms) ++ ys))) ≡ false = ground (
      arith,
      c.apart x,
      c.right,
      c.ends,
      mem-append x xs ((b ∷ ms) ++ ys),
      mem-append x ms ys,
      mem-append x xs (b ∷ ms),
    ) in
    (
      insert (unlink l x) b x,
      list_next_lem l x c.nonnull c.next_nonnull ∙ ap ok c.next_is,
      prev_ok,
      list_splice_lem l b x (first ys (tail_of list)) cb.nonnull cb.prev_nonnull not_end prev_ok
          c.nonnull c.prev_nonnull c.next_nonnull,
      insert-IsList xs ((b ∷ ms) ++ ys) v2 (ground (arith, c.nonnull)) fresh,
    )

-- The merge of two sequences: of elements of which none is less, that of the first comes first.
abbrev spread : Less → ℕ → (List ℕ → List ℕ) → List ℕ → List ℕ → List ℕ
spread less a k us [] = a ∷ us
spread less a k us (b ∷ ws) = if less b a then b ∷ spread less a k us ws else a ∷ k (b ∷ ws)

abbrev pub merged : Less → List ℕ → List ℕ → List ℕ
merged less [] ws = ws
merged less (a ∷ us) ws = spread less a (merged less us) us ws

neither : (r d : Result Links) (b : Bool) → (if b && false then r else d) ≡ d
neither r d true = refl
neither r d false = refl

pub ==-same : (n : ℕ) → (n == n) ≡ true
==-same n = ground arith

pub merge_loop-IsList :
    {list : ℕ} (less : Less) (post : List ℕ) (fuel : ℕ) {l : Links} (done us ws : List ℕ)
    → IsList l list (done ++ (us ++ (ws ++ post)))
    → length us + length ws < fuel
    → (m : Links) × (merge_loop fuel l less
          (first us (first ws (first post (tail_of list))))
          (first ws (first post (tail_of list)))
          (first post (tail_of list))
        ≡ ok m)
      × IsList m list (done ++ (merged less us ws ++ post))
unfolding merge_loop mem
merge_loop-IsList less post zero done us ws v lt = absurd (omega arith)
merge_loop-IsList {list} less post (suc fuel) {l} done [] ws v lt =
    (l, rw (==-same (first ws (first post (tail_of list)))) refl, v)
merge_loop-IsList {list} less post (suc fuel) {l} done (a ∷ us) [] v lt = (
  l,
  rw (==-same (first post (tail_of list))) (neither _ _ (not (a == first post (tail_of list)))),
  v,
)
merge_loop-IsList {list} less post (suc fuel) {l} done (a ∷ us) (b ∷ ws) v lt =
    let c = IsList-Around done (us ++ (b ∷ (ws ++ post))) a v in
    let c2 =
      IsList-Around (done ++ (a ∷ us)) (ws ++ post) b
        (subst (λ zs. IsList l list zs) (sym (append_assoc done (a ∷ us) (b ∷ (ws ++ post)))) v) in
    let differ : (a == b) ≡ false = ground (arith, c.right, mem-append a us (b ∷ (ws ++ post))) in
    let not_end : (b == first post (tail_of list)) ≡ false = ==-ne b _ (
      fresh-first post (ground (arith, c2.ends))
        (ground (arith, c2.right, mem-append b ws post))) in
    elim (Bool-cases (less b a)) [
      | inl h ↦
          let (m1, nx, pv, sp, w) = list_splice-IsList done a us b (ws ++ post) v in
          let (m, run, t) =
            merge_loop-IsList less post fuel (done ++ (b ∷ [])) (a ∷ us) ws
              (subst (λ zs. IsList m1 list zs)
                (sym (append_assoc done (b ∷ []) ((a ∷ us) ++ (ws ++ post)))) w)
              (omega arith) in
          rw h (
            m,
            rw (differ, not_end, nx, pv, sp)
                (ap (λ n. merge_loop fuel m1 less a n (first post (tail_of list)))
                    (first-append ws post (tail_of list))
                  ∙ run),
            subst (λ zs. IsList m list zs)
                (append_assoc done (b ∷ []) (merged less (a ∷ us) ws ++ post)) t,
          )
      | inr h ↦
          let (m, run, t) =
            merge_loop-IsList less post fuel (done ++ (a ∷ [])) us (b ∷ ws)
              (subst (λ zs. IsList l list zs)
                (sym (append_assoc done (a ∷ []) (us ++ (b ∷ (ws ++ post))))) v)
              (omega arith) in
          rw h (
            m,
            rw (differ, not_end, list_next_lem l a c.nonnull c.next_nonnull, c.next_is)
                (ap (λ n. merge_loop fuel l less n b (first post (tail_of list)))
                    (first-append us (b ∷ (ws ++ post)) (tail_of list))
                  ∙ run),
            subst (λ zs. IsList m list zs)
                (append_assoc done (a ∷ []) (merged less us (b ∷ ws) ++ post)) t,
          )
    ]
