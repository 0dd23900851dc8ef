-- ===== src/KernelList/Linked.antt =====
-- Chains of elements, and what changes of their pointers do to them.
use eda.Prelude.{ℕ, ◌≡◌, ◌≢◌, sym, ◌∙◌, ap, true, List, [], ◌∷◌, ◌++◌, arith}
use eda.Prelude.Members.{mem, IsDistinct}
use eda.KernelList.{Links}

-- From `p`, the `next` pointers lead through `xs` to `q`, and the `prev` pointers back.
pub data Linked (l : Links) (q : ℕ) : ℕ → List ℕ → Type 0 where
  link : {p : ℕ} → l.next p ≡ q → l.prev q ≡ p → Linked l q p []
  chain :
      {p x : ℕ} {xs : List ℕ}
      → l.next p ≡ x
      → l.prev x ≡ p
      → Linked l q x xs
      → Linked l q p (x ∷ xs)

module _ {l : Links} where
  pub Linked-append :
      {q x p : ℕ} {xs ys : List ℕ}
      → Linked l x p xs
      → Linked l q x ys
      → Linked l q p (xs ++ (x ∷ ys))
  Linked-append (link a b) t = chain a b t
  Linked-append (chain a b s) t = chain a b (Linked-append s t)

  pub Linked-split :
      {p q : ℕ} (xs : List ℕ) {ys : List ℕ} {x : ℕ}
      → Linked l q p (xs ++ (x ∷ ys))
      → Linked l x p xs × Linked l q x ys
  Linked-split [] (chain a b s) = (link a b, s)
  Linked-split (y ∷ xs) (chain a b s) = let (t, u) = Linked-split xs s in (chain a b t, u)

  -- The last element, or the start
  pub mem-prev : {q p : ℕ} {xs : List ℕ} → Linked l q p xs → mem (l.prev q) (p ∷ xs) ≡ true
  unfolding mem
  mem-prev (link a b) = ground (arith, b)
  mem-prev (chain a b s) = ground (arith, mem-prev s)

  -- The end, or the first element
  pub mem-next : {q p : ℕ} {xs : List ℕ} → Linked l q p xs → mem (l.next p) (xs ++ (q ∷ [])) ≡ true
  unfolding mem
  mem-next (link a b) = ground (arith, a)
  mem-next (chain a b s) = ground (arith, a)

  module _ {m : Links} where
    pub frame :
        {q p : ℕ} {xs : List ℕ}
        → Linked l q p xs
        → ((a : ℕ) → mem a (p ∷ xs) ≡ true → m.next a ≡ l.next a)
        → ((a : ℕ) → mem a (xs ++ (q ∷ [])) ≡ true → m.prev a ≡ l.prev a)
        → Linked m q p xs
    unfolding mem
    frame {q} {p} (link a b) f g = link (f p (ground arith) ∙ a) (g q (ground arith) ∙ b)
    frame {q} {p} (chain {x = x} a b s) f g =
        chain (f p (ground arith) ∙ a) (g x (ground arith) ∙ b)
          (frame s (λ c h. f c (ground arith)) (λ c h. g c (ground arith)))

    -- The last link is turned to `r`.
    pub relink :
        {q r p : ℕ} {xs : List ℕ}
        → Linked l q p xs
        → IsDistinct (p ∷ xs)
        → m.next (l.prev q) ≡ r
        → m.prev r ≡ l.prev q
        → ((a : ℕ) → mem a (p ∷ xs) ≡ true → a ≢ l.prev q → m.next a ≡ l.next a)
        → ((a : ℕ) → mem a xs ≡ true → m.prev a ≡ l.prev a)
        → Linked m r p xs
    unfolding mem
    relink {q} {r} {p} (link a b) d e h f g = link (ap m.next (sym b) ∙ e) (h ∙ b)
    relink {q} {r} {p} (chain {x = x} a b s) d e h f g =
        chain (f p (ground arith) (λ u. ground (arith, mem-prev s)) ∙ a) (g x (ground arith) ∙ b)
          (relink s d.1 e h (λ c i. f c (ground arith)) (λ c i. g c (ground arith)))
