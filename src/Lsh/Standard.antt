-- ===== src/Lsh/Standard.antt =====
-- The descriptors of a child when it runs its command.
use eda.Prelude.{
  ℕ, ◌≡◌, ◌≢◌, ◌==◌, ==-ne, List, [], ◌∷◌, arith, Bool-cases, inl, inr, Option, some, none,
}
use eda.Prelude.Members.{update}
use eda.Lsh.{Child, ChildCall, child_close, dup2, child_calls}

-- What a descriptor of the child stands for: a descriptor of the shell, or nothing.
abbrev pub Table : Type 0
Table = ℕ → Option ℕ

unfoldable pub after_calls : List ChildCall → Table → Table
after_calls [] t = t
after_calls (child_close fd ∷ cs) t = after_calls cs (update t fd none)
after_calls (dup2 old new ∷ cs) t = after_calls cs (update t new (t old))

-- A child that gets `child_in`, `child_out` and the write end of a new pipe reads from the first as its
-- standard input, writes to the second as its standard output, and has closed all three under their
-- own numbers, so that it does not keep its own pipe open.
pub record IsStandard (child_in child_out w : ℕ) (t : Table) : Type 0 where
  pub input : t 0 ≡ some child_in
  pub output : t 1 ≡ some child_out
  pub closed_in : child_in ≢ 0 → t child_in ≡ none
  pub closed_out : child_out ≢ 1 → t child_out ≡ none
  pub closed_end : t w ≡ none

pub child_calls-IsStandard :
    (child_in child_out w : ℕ)
    → child_in ≢ 1
    → child_out ≢ 0
    → child_in ≢ child_out
    → w ≢ 0
    → w ≢ 1
    → w ≢ child_in
    → w ≢ child_out
    → IsStandard child_in child_out w
        (after_calls (child_calls (some w) child_in child_out) (λ fd. some fd))
unfolding after_calls
child_calls-IsStandard child_in child_out w a b c d e f g =
    rw (==-ne w 1 e) (elim (Bool-cases (child_in == 0)) [
      | inl p ↦ elim (Bool-cases (child_out == 1)) [
        | inl q ↦
            rw (p, q)
              (record {
                input = ground arith;
                output = ground arith;
                closed_in = ground arith;
                closed_out = ground arith;
                closed_end = ground arith;
              })
        | inr q ↦
            rw (p, q)
              (record {
                input = ground arith;
                output = ground arith;
                closed_in = ground arith;
                closed_out = ground arith;
                closed_end = ground arith;
              })
      ]
      | inr p ↦ elim (Bool-cases (child_out == 1)) [
        | inl q ↦
            rw (p, q)
              (record {
                input = ground arith;
                output = ground arith;
                closed_in = ground arith;
                closed_out = ground arith;
                closed_end = ground arith;
              })
        | inr q ↦
            rw (p, q)
              (record {
                input = ground arith;
                output = ground arith;
                closed_in = ground arith;
                closed_out = ground arith;
                closed_end = ground arith;
              })
      ]
    ])

-- The descriptors of a child when it runs its command: those of the shell, after its calls
abbrev pub descriptors : Child → Table
descriptors k = after_calls k.calls (λ fd. some fd)

-- The child that is the last gets no pipe.
pub child_calls_last :
    (child_in child_out : ℕ)
    → child_in ≢ 1
    → child_out ≢ 0
    → child_in ≢ child_out
    → let t = after_calls (child_calls none child_in child_out) (λ fd. some fd) in
      (t 0 ≡ some child_in) × (t 1 ≡ some child_out)
unfolding after_calls
child_calls_last child_in child_out a b c = elim (Bool-cases (child_in == 0)) [
  | inl p ↦ elim (Bool-cases (child_out == 1)) [
    | inl q ↦ rw (p, q) (ground arith, ground arith)
    | inr q ↦ rw (p, q) (ground arith, ground arith)
  ]
  | inr p ↦ elim (Bool-cases (child_out == 1)) [
    | inl q ↦ rw (p, q) (ground arith, ground arith)
    | inr q ↦ rw (p, q) (ground arith, ground arith)
  ]
]
