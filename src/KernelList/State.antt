-- ===== src/KernelList/State.antt =====
-- What a list of the memory stands for, and where it is cut in two.
use mathlib.Core.Path.{subst}
use mathlib.Core.List.{append-nil}
use eda.Prelude.{ℕ, ◌≡◌, sym, ◌∙◌, true, false, List, [], ◌∷◌, ◌++◌, arith}
use eda.Prelude.Members.{mem, mem-append, IsDistinct}
use eda.KernelList.{Links, tail_of}
use eda.KernelList.Linked.{Linked, Linked-append, Linked-split, frame}

-- The elements of a list with its head and its tail
abbrev pub nodes : ℕ → List ℕ → List ℕ
nodes list xs = list ∷ tail_of list ∷ xs

-- The list at `list` holds the elements `xs`, in this order.
pub record IsList (l : Links) (list : ℕ) (xs : List ℕ) : Type 0 where
  pub head_prev : l.prev list ≡ 0
  pub tail_next : l.next (tail_of list) ≡ 0
  pub linked : Linked l (tail_of list) list xs
  pub distinct : IsDistinct (nodes list xs)
  pub nonnull : mem 0 (nodes list xs) ≡ false

-- The pointers of all elements but `ns` are the same.
pub record Spares (l m : Links) (ns : List ℕ) : Type 0 where
  pub prev : (a : ℕ) → mem a ns ≡ false → m.prev a ≡ l.prev a
  pub next : (a : ℕ) → mem a ns ≡ false → m.next a ≡ l.next a

-- The first element of a list that ends at `stop`
abbrev pub first : List ℕ → ℕ → ℕ
first [] stop = stop
first (y ∷ ys) stop = y

-- The elements `ys` are linked up to `stop`, where they are any.
abbrev pub Rest : Links → ℕ → List ℕ → Type 0
Rest l stop [] = Unit {0}
Rest l stop (y ∷ ys) = Linked l stop y ys

module _ {l : Links} {stop p : ℕ} where
  pub cut :
      (xs ys : List ℕ) → Linked l stop p (xs ++ ys) → Linked l (first ys stop) p xs × Rest l stop ys
  cut xs [] s = (subst (λ zs. Linked l stop p zs) (append-nil xs) s, tt)
  cut xs (y ∷ ys) s = Linked-split xs s

  pub paste :
      (xs ys : List ℕ) → Linked l (first ys stop) p xs → Rest l stop ys → Linked l stop p (xs ++ ys)
  paste xs [] s t = subst (λ zs. Linked l stop p zs) (sym (append-nil xs)) s
  paste xs (y ∷ ys) s t = Linked-append s t

-- Parts of a list of distinct elements
pub IsDistinct-split :
    (xs ys : List ℕ)
    → IsDistinct (xs ++ ys)
    → IsDistinct xs × IsDistinct ys × ((a : ℕ) → mem a xs ≡ true → mem a ys ≡ false)
unfolding mem
IsDistinct-split [] ys d = (tt, d, λ a h. ground arith)
IsDistinct-split (x ∷ xs) ys d =
    let (c, e, f) = IsDistinct-split xs ys d.1 in
    ((ground (arith, mem-append x xs ys), c), e, λ a h. ground (arith, f a, mem-append x xs ys))

pub IsDistinct-join :
    (xs ys : List ℕ)
    → IsDistinct xs
    → IsDistinct ys
    → ((a : ℕ) → mem a xs ≡ true → mem a ys ≡ false)
    → IsDistinct (xs ++ ys)
unfolding mem
IsDistinct-join [] ys c e f = e
IsDistinct-join (x ∷ xs) ys c e f = (
  ground (arith, mem-append x xs ys, f x),
  IsDistinct-join xs ys c.1 e (λ a h. f a (ground arith)),
)

-- A list whose elements are spared stays as it is.
pub IsList-frame :
    {l m : Links} {list : ℕ} {xs : List ℕ} (ns : List ℕ)
    → IsList l list xs
    → Spares l m ns
    → ((a : ℕ) → mem a (nodes list xs) ≡ true → mem a ns ≡ false)
    → IsList m list xs
unfolding mem
IsList-frame {list = list} {xs = xs} ns v s apart = record {
  head_prev = s.prev list (apart list (ground arith)) ∙ v.head_prev;
  tail_next = s.next (tail_of list) (apart (tail_of list) (ground arith)) ∙ v.tail_next;
  linked =
      frame v.linked (λ a h. s.next a (apart a (ground arith)))
        (λ a h. s.prev a (apart a (ground (arith, mem-append a xs (tail_of list ∷ [])))));
  distinct = v.distinct;
  nonnull = v.nonnull;
}
