-- ===== src/KernelList/Size.antt =====
-- The size of a list.
use eda.Prelude.{
  ℕ, zero, suc, ◌+◌, ◌^◌, ◌<◌, ◌≡◌, refl, ◌∙◌, ap, ◌&&◌, ◌||◌, Bool, true, false, not, ◌==◌, List,
  [], ◌∷◌, arith, length, ok, ◌>>◌, assert,
}
use eda.Prelude.Members.{mem}
use eda.KernelList.{Links, is_null, is_head, is_interior, list_next, size_loop, list_size}
use eda.KernelList.Linked.{Linked, link, chain}
use eda.KernelList.State.{IsList, first}
use eda.KernelList.Remove.{Linked-next}

-- `list_next` steps from an element to the next
pub list_next_lem :
    (l : Links) (e : ℕ) → (e == 0) ≡ false → (l.next e == 0) ≡ false → list_next l e ≡ ok (l.next e)
unfolding list_next is_head is_interior
list_next_lem l e e0 n0 = rw (e0, n0) (go (is_null (l.prev e)))
  where
    go : (c : Bool) → (assert ((c && true) || (not c && true)) >> ok (l.next e)) ≡ ok (l.next e)
    go true = refl
    go false = refl

pub first_nonnull :
    (stop : ℕ) (xs : List ℕ) → mem 0 (stop ∷ xs) ≡ false → (first xs stop == 0) ≡ false
unfolding mem
first_nonnull stop [] h = ground arith
first_nonnull stop (x ∷ xs) h = ground arith

pub size_loop_lem :
    {l : Links} {stop : ℕ} (fuel cnt : ℕ) {p : ℕ} {xs : List ℕ}
    → Linked l stop p xs
    → mem 0 (stop ∷ xs) ≡ false
    → mem stop xs ≡ false
    → length xs < fuel
    → cnt + length xs < 2 ^ 32
    → size_loop fuel l stop (first xs stop) cnt ≡ ok (cnt + length xs)
unfolding size_loop mem
size_loop_lem zero cnt s nz out lt le = absurd (omega arith)
size_loop_lem {l} {stop} (suc fuel) cnt (link a b) nz out lt le = ground arith
size_loop_lem {l} {stop} (suc fuel) cnt (chain {x = x} {xs = xs} a b s) nz out lt le =
    let n = Linked-next s in
    let nz1 : mem 0 (stop ∷ xs) ≡ false = ground arith in
    let xs0 : (x == stop) ≡ false = ground arith in
    let rest =
      size_loop_lem fuel (cnt + 1) s nz1 (ground arith) (omega arith) (omega (arith, le)) in
    let next0 : (l.next x == 0) ≡ false = rw n (first_nonnull stop xs nz1) in
    rw (xs0, list_next_lem l x (ground arith) next0, n)
      (ap (size_loop fuel l stop (first xs stop)) (omega (arith, le)) ∙ rest ∙ ap ok (omega arith))

-- With more fuel than it has elements, the size of a list is the number of its elements, if that is a
-- size_t.
pub list_size_lem :
    {l : Links} {list : ℕ} {xs : List ℕ} (fuel : ℕ)
    → IsList l list xs
    → length xs < fuel
    → length xs < 2 ^ 32
    → list_size fuel l list ≡ ok (length xs)
unfolding list_size mem
list_size_lem {l} {list} {xs} fuel v lt le =
    let list0 : (list == 0) ≡ false = ground (arith, v.nonnull) in
    rw (list0, Linked-next v.linked)
      (size_loop_lem fuel 0 v.linked (ground (arith, v.nonnull)) (ground (arith, v.distinct)) lt
          (omega (arith, le))
        ∙ ap ok (omega arith))
