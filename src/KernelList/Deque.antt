-- ===== src/KernelList/Deque.antt =====
-- Any sequence of operations at the ends of a list, against a sequence of elements.
use mathlib.Core.Path.{subst}
use eda.Prelude.{
  ℕ, ◌≡◌, refl, ap, ◌&&◌, Bool, true, false, not, ◌==◌, List, [], ◌∷◌, ◌++◌, arith, if◌then◌else◌,
  Result, ok, panic, fault, ◌>>=◌,
}
use eda.Prelude.Members.{mem}
use eda.KernelList.{Links, list_push_front, list_push_back, list_pop_front, list_pop_back}
use eda.KernelList.State.{nodes, IsList}
use eda.KernelList.Ends.{
  list_push_front-IsList, list_push_back-IsList, list_pop_front-IsList, list_pop_back-IsList,
  list_pop_front-nil, list_pop_back-nil,
}

pub data Op : Type 0 where
  push_front push_back : ℕ → Op
  pop_front pop_back : Op

-- An operation on the list at `list`, with the element that a pop returns
unfoldable pub operate : Links → ℕ → Op → Result (List ℕ × Links)
operate l list (push_front e) = list_push_front l list e >>= λ m. ok ([], m)
operate l list (push_back e) = list_push_back l list e >>= λ m. ok ([], m)
operate l list pop_front = list_pop_front l list >>= λ r. ok (r.0 ∷ [], r.1)
operate l list pop_back = list_pop_back l list >>= λ r. ok (r.0 ∷ [], r.1)

unfoldable pub operate_all : Links → ℕ → List Op → Result (List ℕ × Links)
operate_all l list [] = ok ([], l)
operate_all l list (o ∷ os) =
    operate l list o >>= λ r. operate_all r.1 list os >>= λ q. ok (r.0 ++ q.0, q.1)

-- The sequence without its last element `z`, and `z`
abbrev pub last_of : ℕ → List ℕ → ℕ
last_of x [] = x
last_of x (y ∷ ys) = last_of y ys

abbrev pub front_of : ℕ → List ℕ → List ℕ
front_of x [] = []
front_of x (y ∷ ys) = x ∷ front_of y ys

-- What the operations do to a sequence: a pop from the empty one panics; pushing NULL, an element of the
-- list, its head or its tail is not described (`fault`).
abbrev pub push_ok : ℕ → ℕ → List ℕ → Bool
push_ok list e xs = not (e == 0) && not (mem e (nodes list xs))

unfoldable pub describe : ℕ → List ℕ → Op → Result (List ℕ × List ℕ)
describe list xs (push_front e) = if push_ok list e xs then ok ([], e ∷ xs) else fault
describe list xs (push_back e) = if push_ok list e xs then ok ([], xs ++ (e ∷ [])) else fault
describe list [] pop_front = panic
describe list (x ∷ xs) pop_front = ok (x ∷ [], xs)
describe list [] pop_back = panic
describe list (x ∷ xs) pop_back = ok (last_of x xs ∷ [], front_of x xs)

unfoldable pub describe_all : ℕ → List ℕ → List Op → Result (List ℕ × List ℕ)
describe_all list xs [] = ok ([], xs)
describe_all list xs (o ∷ os) =
    describe list xs o >>= λ r. describe_all list r.1 os >>= λ q. ok (r.0 ++ q.0, q.1)

-- A run on the memory agrees with its description: where that has a result, it leaves a list with the
-- elements described and returns the same elements; where it panics, so does the run.
abbrev pub Agrees : ℕ → Result (List ℕ × List ℕ) → Result (List ℕ × Links) → Type 0
Agrees list (ok (out, ys)) r = (m : Links) × (r ≡ ok (out, m)) × IsList m list ys
Agrees list panic r = r ≡ panic
Agrees list fault r = Unit {0}

front-last : (x : ℕ) (xs : List ℕ) → x ∷ xs ≡ front_of x xs ++ (last_of x xs ∷ [])
front-last x [] = refl
front-last x (y ∷ ys) = ap (λ zs. x ∷ zs) (front-last y ys)

module _ (list : ℕ) where
  Agrees-if :
      (b : Bool) (d : Result (List ℕ × List ℕ)) (r : Result (List ℕ × Links))
      → (b ≡ true → Agrees list d r)
      → Agrees list (if b then d else fault) r
  Agrees-if true d r h = h refl
  Agrees-if false d r h = tt

  operate-Agrees :
      (l : Links) (xs : List ℕ) (o : Op)
      → IsList l list xs
      → Agrees list (describe list xs o) (operate l list o)
  unfolding describe operate mem
  operate-Agrees l xs (push_front e) v = Agrees-if (push_ok list e xs) _ _ (λ h.
      let (m, run, w, s) = list_push_front-IsList {e = e} v (ground arith) (ground arith) in
      (m, rw run refl, w))
  operate-Agrees l xs (push_back e) v = Agrees-if (push_ok list e xs) _ _ (λ h.
      let (m, run, w, s) = list_push_back-IsList {e = e} v (ground arith) (ground arith) in
      (m, rw run refl, w))
  operate-Agrees l [] pop_front v = rw (list_pop_front-nil v) refl
  operate-Agrees l (x ∷ xs) pop_front v =
      let (m, run, w, s) = list_pop_front-IsList v in (m, rw run refl, w)
  operate-Agrees l [] pop_back v = rw (list_pop_back-nil v) refl
  operate-Agrees l (x ∷ xs) pop_back v =
      let (m, run, w, s) =
        list_pop_back-IsList {xs = front_of x xs}
          (subst (λ zs. IsList l list zs) (front-last x xs) v) in
      (m, rw run refl, w)

  Agrees-second :
      (out : List ℕ) (d : Result (List ℕ × List ℕ)) (r : Result (List ℕ × Links))
      → Agrees list d r
      → Agrees list (d >>= λ q. ok (out ++ q.0, q.1)) (r >>= λ q. ok (out ++ q.0, q.1))
  Agrees-second out (ok (o1, ys)) r (m, e, w) = (m, rw e refl, w)
  Agrees-second out panic r e = rw e refl
  Agrees-second out fault r e = tt

  Agrees-bind :
      (os : List Op) (d : Result (List ℕ × List ℕ)) (r : Result (List ℕ × Links))
      → ((ys : List ℕ) (m : Links)
          → IsList m list ys
          → Agrees list (describe_all list ys os) (operate_all m list os))
      → Agrees list d r
      → Agrees list
          (d >>= λ r. describe_all list r.1 os >>= λ q. ok (r.0 ++ q.0, q.1))
          (r >>= λ r. operate_all r.1 list os >>= λ q. ok (r.0 ++ q.0, q.1))
  Agrees-bind os (ok (o1, ys)) r rest (m, e, w) =
      rw e (Agrees-second o1 (describe_all list ys os) (operate_all m list os) (rest ys m w))
  Agrees-bind os panic r rest e = rw e refl
  Agrees-bind os fault r rest e = tt

  -- Any sequence of operations at both ends of a list agrees with its description on the sequence of
  -- the elements.
  pub operate_all-Agrees :
      (l : Links) (xs : List ℕ) (os : List Op)
      → IsList l list xs
      → Agrees list (describe_all list xs os) (operate_all l list os)
  unfolding operate_all describe_all
  operate_all-Agrees l xs [] v = (l, refl, v)
  operate_all-Agrees l xs (o ∷ os) v =
      Agrees-bind os (describe list xs o) (operate l list o)
        (λ ys m w. operate_all-Agrees m ys os w) (operate-Agrees l xs o v)
