-- ===== src/Parse/Lexer.antt =====
-- How much of the line and of `cbuf` a token takes.
use eda.Prelude.{
  ℕ, ◌+◌, ◌-◌, ◌*◌, ◌<◌, ◌≤◌, ◌≡◌, ◌≢◌, refl, true, [], ◌∷◌, arith, Bool-cases, inl, inr, length,
  ok,
}
use eda.Parse.{
  Text, isspec, skip, word_front, word_rest, Lexed, store_token, lex, nexttoken, first_is_spec,
}

pub length-skip : (s : Text) → length (skip s) ≤ length s
unfolding skip
length-skip [] = omega arith
length-skip (c ∷ s) = ground (arith, length-skip s)

pub length-word : (s : Text) → length (word_front s) + length (word_rest s) ≡ length s
unfolding word_front word_rest
length-word [] = refl
length-word (c ∷ s) = ground (arith, length-word s)

-- What a call of `nexttoken` at `cp` and `s` has done.
pub record Lexes (cp : ℕ) (s : Text) (x : Lexed) : Type 0 where
  pub bounded : x.cp + 2 * length x.rest ≤ cp + 2 * length s
  pub shorter : x.count ≢ 0 → length x.rest < length s
  pub shrinks : length x.rest ≤ length s
  pub ended : x.count ≡ 0 → x.cp ≤ cp
  pub special : first_is_spec x.token ≡ true → x.cp ≤ cp + 2

store_token-Lexes :
    (cp : ℕ) (s token rest : Text)
    → cp + 2 * length s ≤ 256
    → 0 < length token
    → length token + length rest ≤ length s
    → (first_is_spec token ≡ true → length token ≡ 1)
    → (x : Lexed) × (store_token cp s token rest ≡ ok x) × Lexes cp s x
store_token-Lexes cp s token rest room pos fits one = (
  record { count = length s - length rest; token = token; rest = rest; cp = cp + length token + 1 },
  ground arith,
  record {
    bounded = omega arith;
    shorter = λ ne. omega arith;
    shrinks = omega arith;
    ended = λ e. omega arith;
    special = λ e. omega (arith, one e);
  },
)

pub nexttoken-Lexes :
    (old : ℕ → Text) (cp : ℕ) (s : Text)
    → cp + 2 * length s ≤ 256
    → (x : Lexed) × (nexttoken old cp s ≡ ok x) × Lexes cp s x
unfolding nexttoken lex
nexttoken-Lexes old cp s room = go (skip s) (length-skip s)
  where
    go :
        (t : Text) → length t ≤ length s → (x : Lexed) × (lex cp (old cp) s t ≡ ok x) × Lexes cp s x
    go [] le = (
      record { count = 0; token = old cp; rest = s; cp = cp },
      refl,
      record {
        bounded = omega arith;
        shorter = λ ne. absurd (ne refl);
        shrinks = omega arith;
        ended = λ e. omega arith;
        special = λ e. omega arith;
      },
    )
    go (c ∷ r) le = elim (Bool-cases (isspec c)) [
      | inl e ↦
          rw e
            (store_token-Lexes cp s (c ∷ []) r room (omega arith) (omega (arith, le)) (λ h. refl))
      | inr e ↦ rw e (
          store_token-Lexes cp s (c ∷ word_front r) (word_rest r) room (omega arith)
            (omega (arith, le, length-word r)) (λ h. absurd (ground arith)))
    ]
