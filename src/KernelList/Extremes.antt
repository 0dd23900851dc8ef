-- ===== src/KernelList/Extremes.antt =====
-- The largest and the smallest element of a list.
use mathlib.Core.Path.{subst}
use mathlib.Core.List.{append-nil, append_assoc}
use eda.Prelude.{
  ℕ, zero, suc, ◌<◌, ◌≡◌, refl, sym, ◌∙◌, ap, true, false, ◌==◌, ==_iff, List, [], ◌∷◌, ◌++◌, arith,
  Bool-cases, inl, inr, if◌then◌else◌, length, Result, ok, panic, fault, ◌>>=◌,
}
use eda.Prelude.Members.{mem, mem-append}
use eda.KernelList.{Links, tail_of, list_begin, list_end, list_next}
use eda.KernelList.Ordered.{Less, max_loop, min_loop, list_max, list_min}
use eda.KernelList.Linked.{Linked, link, chain}
use eda.KernelList.State.{IsList, first}
use eda.KernelList.Remove.{Linked-next}
use eda.KernelList.Size.{list_next_lem, first_nonnull}

-- A strict order
pub record IsOrder (less : Less) : Type 0 where
  pub irreflexive : (a : ℕ) → less a a ≡ false
  pub transitive : (a b c : ℕ) → less a b ≡ true → less b c ≡ true → less a c ≡ true

-- `best` is an element of `xs`, and no element is greater.
pub record IsMax (less : Less) (best : ℕ) (xs : List ℕ) : Type 0 where
  pub member : mem best xs ≡ true
  pub greatest : (a : ℕ) → mem a xs ≡ true → less best a ≡ false

IsMax-step :
    {less : Less} {best : ℕ} (x : ℕ) {xs : List ℕ}
    → IsOrder less
    → IsMax less best xs
    → IsMax less (if less best x then x else best) (xs ++ (x ∷ []))
unfolding mem
IsMax-step {less} {best} x {xs} o m = elim (Bool-cases (less best x)) [
  | inl h ↦ rw h (record {
    member = ground (arith, mem-append x xs (x ∷ []));
    greatest = λ a k. elim (Bool-cases (less x a)) [
      | inr u ↦ u
      | inl u ↦ elim (Bool-cases (a == x)) [
        | inl e ↦ absurd (ground (arith, o.irreflexive x, ap (less x) ((==_iff a x).0 e)))
        | inr e ↦
            absurd
              (ground (arith, o.transitive best x a h u, m.greatest a, mem-append a xs (x ∷ [])))
      ]
    ];
  })
  | inr h ↦ rw h (record {
    member = ground (arith, mem-append best xs (x ∷ []), m.member);
    greatest = λ a k. ground (arith, mem-append a xs (x ∷ []), m.greatest a, h);
  })
]

-- The loop looks at the elements `xs` behind those of `seen`.
max_loop-IsMax :
    {l : Links} {stop : ℕ} {less : Less} (fuel best : ℕ) (seen : List ℕ) {p : ℕ} {xs : List ℕ}
    → IsOrder less
    → Linked l stop p xs
    → mem 0 (stop ∷ xs) ≡ false
    → mem stop xs ≡ false
    → length xs < fuel
    → IsMax less best seen
    → (r : ℕ) × (max_loop fuel l less stop best (first xs stop) ≡ ok r) × IsMax less r (seen ++ xs)
unfolding max_loop mem
max_loop-IsMax zero best seen o s nz out lt m = absurd (omega arith)
max_loop-IsMax {l} {stop} {less} (suc fuel) best seen o (link a b) nz out lt m =
    (best, ground arith, subst (λ ys. IsMax less best ys) (sym (append-nil seen)) m)
max_loop-IsMax {l} {stop} {less} (suc fuel) best seen o (chain {x = x} {xs = xs} a b s) nz out lt
      m =
    let nz1 : mem 0 (stop ∷ xs) ≡ false = ground arith in
    let xs0 : (x == stop) ≡ false = ground arith in
    let n = Linked-next s in
    let next0 : (l.next x == 0) ≡ false = rw n (first_nonnull stop xs nz1) in
    let (r, run, w) =
      max_loop-IsMax fuel (if less best x then x else best) (seen ++ (x ∷ [])) o s nz1
        (ground arith) (omega arith) (IsMax-step x o m) in
    (
      r,
      rw (xs0, list_next_lem l x (ground arith) next0, n) run,
      subst (λ ys. IsMax less r ys) (append_assoc seen (x ∷ []) xs) w,
    )

-- `list_min` is `list_max` for the opposite order.
abbrev pub flipped : Less → Less
flipped less a b = less b a

bind_ext : {f g : ℕ → Result ℕ} (r : Result ℕ) → ((n : ℕ) → f n ≡ g n) → (r >>= f) ≡ (r >>= g)
bind_ext (ok n) h = h n
bind_ext panic h = refl
bind_ext fault h = refl

min_loop-max_loop :
    (l : Links) (less : Less) (fuel stop best e : ℕ)
    → min_loop fuel l less stop best e ≡ max_loop fuel l (flipped less) stop best e
unfolding min_loop max_loop
min_loop-max_loop l less zero stop best e = refl
min_loop-max_loop l less (suc fuel) stop best e =
    ap (λ (r : Result ℕ). if e == stop then ok best else r)
      (bind_ext (list_next l e)
        (λ n. min_loop-max_loop l less fuel stop (if less e best then e else best) n))

list_min-list_max :
    (l : Links) (less : Less) (fuel list : ℕ)
    → list_min fuel l less list ≡ list_max fuel l (flipped less) list
unfolding list_min list_max
list_min-list_max l less fuel list = bind_ext (list_begin l list) (λ best.
    bind_ext (list_end list) (λ stop.
      ap (λ (r : Result ℕ). if best == stop then ok best else r)
        (bind_ext (list_next l best) (λ e. min_loop-max_loop l less fuel stop best e))))

flipped-IsOrder : {less : Less} → IsOrder less → IsOrder (flipped less)
flipped-IsOrder o = record {
  irreflexive = o.irreflexive;
  transitive = λ a b c h k. o.transitive c b a k h;
}

behind_first : {l : Links} {q p x : ℕ} {xs : List ℕ} → Linked l q p (x ∷ xs) → Linked l q x xs
behind_first (chain a b s) = s

list_max-IsMax :
    {l : Links} {list x : ℕ} {xs : List ℕ} (less : Less) (fuel : ℕ)
    → IsOrder less
    → IsList l list (x ∷ xs)
    → length xs < fuel
    → (r : ℕ) × (list_max fuel l less list ≡ ok r) × IsMax less r (x ∷ xs)
unfolding list_max mem
list_max-IsMax {l} {list} {x} {xs} less fuel o v lt =
    let list0 : (list == 0) ≡ false = ground (arith, v.nonnull) in
    let s = behind_first v.linked in
    let nz : mem 0 (tail_of list ∷ xs) ≡ false = ground (arith, v.nonnull) in
    let next0 : (l.next x == 0) ≡ false = rw (Linked-next s) (first_nonnull (tail_of list) xs nz) in
    let alone : IsMax less x (x ∷ []) = record {
      member = ground arith;
      greatest = λ a h. rw ((==_iff a x).0 (ground arith)) (o.irreflexive x);
    } in
    let (r, run, w) = max_loop-IsMax fuel x (x ∷ []) o s nz (ground (arith, v.distinct)) lt alone in
    let not_end : (x == tail_of list) ≡ false = ground (arith, v.distinct) in
    (
      r,
      rw
          (
            list0,
            Linked-next v.linked,
            not_end,
            list_next_lem l x (ground (arith, v.nonnull)) next0,
            Linked-next s,
          )
          run,
      w,
    )

-- For a strict order and more fuel than elements, `list_max` and `list_min` return elements of a list
-- that is not empty, such that none is greater than the one and none less than the other.
pub list_max-list_min :
    {l : Links} {list x : ℕ} {xs : List ℕ} (less : Less) (fuel : ℕ)
    → IsOrder less
    → IsList l list (x ∷ xs)
    → length xs < fuel
    → (hi : ℕ) × (lo : ℕ) × (list_max fuel l less list ≡ ok hi)
      × IsMax less hi (x ∷ xs)
      × (list_min fuel l less list ≡ ok lo)
      × IsMax (flipped less) lo (x ∷ xs)
list_max-list_min {l} {list} less fuel o v lt =
    let (hi, run, w) = list_max-IsMax less fuel o v lt in
    let (lo, run1, w1) = list_max-IsMax (flipped less) fuel (flipped-IsOrder o) v lt in
    (hi, lo, run, w, list_min-list_max l less fuel list ∙ run1, w1)
