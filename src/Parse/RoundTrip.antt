-- ===== src/Parse/RoundTrip.antt =====
-- A command that is printed, with a space before each token, parses back.
use eda.Prelude.{
  ℕ, zero, suc, ◌+◌, ◌-◌, ◌<◌, ◌≤◌, ◌≡◌, refl, true, false, ◌==◌, ==-ne, List, [], ◌∷◌, ◌++◌, arith,
  ltb, leb, length, length-append, ok,
}
use eda.Parse.{
  Text, isspace, isspec, ends_word, skip, word_front, word_rest, Buffers, Lexed, store_token, lex,
  nexttoken, first_is_spec, Parsed, acmd_loop,
}

-- The text of a list of tokens
abbrev pub unlex : List Text → Text
unlex [] = []
unlex (w ∷ ws) = 32 ∷ (w ++ unlex ws)

abbrev pub IsPlain : Text → Type 0
IsPlain [] = Unit {0}
IsPlain (c ∷ s) = (ends_word c ≡ false) × IsPlain s

-- A word is not empty and has neither spaces nor special characters.
abbrev pub IsWord : Text → Type 0
IsWord w = (0 < length w) × IsPlain w

abbrev pub AreWords : List Text → Type 0
AreWords [] = Unit {0}
AreWords (w ∷ ws) = IsWord w × AreWords ws

pub length-unlex : (a b : List Text) → length (unlex (a ++ b)) ≡ length (unlex a) + length (unlex b)
length-unlex [] b = omega arith
length-unlex (w ∷ a) b =
    omega (arith, length-unlex a b, length-append w (unlex (a ++ b)), length-append w (unlex a))

word_front-plain : (w : Text) (ws : List Text) → IsPlain w → word_front (w ++ unlex ws) ≡ w
unfolding word_front
word_front-plain [] [] p = refl
word_front-plain [] (v ∷ ws) p = refl
word_front-plain (c ∷ w) ws p = rw (p.0, word_front-plain w ws p.1) refl

word_rest-plain : (w : Text) (ws : List Text) → IsPlain w → word_rest (w ++ unlex ws) ≡ unlex ws
unfolding word_rest
word_rest-plain [] [] p = refl
word_rest-plain [] (v ∷ ws) p = refl
word_rest-plain (c ∷ w) ws p = rw (p.0, word_rest-plain w ws p.1) refl

-- What `nexttoken` reads off a list of tokens.
abbrev pub lexed : ℕ → Text → List Text → Lexed
lexed cp w ws = record { count = length w + 1; token = w; rest = unlex ws; cp = cp + length w + 1 }

stored :
    (cp : ℕ) (w : Text) (ws : List Text)
    → cp + length w + 1 ≤ 256
    → store_token cp (unlex (w ∷ ws)) w (unlex ws) ≡ ok (lexed cp w ws)
stored cp w ws h =
    let fits : leb (cp + length w + 1) 256 ≡ true = ground arith in
    let n : length (unlex (w ∷ ws)) - length (unlex ws) ≡ length w + 1 =
      omega (arith, length-append w (unlex ws)) in
    rw (fits, n) refl

pub nexttoken-word :
    (old : ℕ → Text) (cp : ℕ) (w : Text) (ws : List Text)
    → IsWord w
    → cp + length w + 1 ≤ 256
    → nexttoken old cp (unlex (w ∷ ws)) ≡ ok (lexed cp w ws)
unfolding nexttoken skip lex
nexttoken-word old cp [] ws (pos, p) h = absurd (omega arith)
nexttoken-word old cp (c ∷ w) ws (pos, p) h =
    let space : isspace c ≡ false = ground (arith, p.0) in
    let spec : isspec c ≡ false = ground (arith, p.0) in
    rw space
      (rw spec (rw (word_front-plain w ws p.1, word_rest-plain w ws p.1) (stored cp (c ∷ w) ws h)))

pub nexttoken-special :
    (old : ℕ → Text) (cp c : ℕ) (ws : List Text)
    → isspec c ≡ true
    → cp + 2 ≤ 256
    → nexttoken old cp (unlex ((c ∷ []) ∷ ws)) ≡ ok (lexed cp (c ∷ []) ws)
unfolding nexttoken skip lex
nexttoken-special old cp c ws spec h =
    let space : isspace c ≡ false = ground arith in
    rw space (rw spec (stored cp (c ∷ []) ws (omega (arith, h))))

pub nexttoken-end :
    (old : ℕ → Text) (cp : ℕ)
    → nexttoken old cp [] ≡ ok (record { count = 0; token = old cp; rest = []; cp = cp })
unfolding nexttoken skip lex
nexttoken-end old cp = refl

word_not_special : (w : Text) → IsWord w → first_is_spec w ≡ false
word_not_special [] (pos, p) = absurd (omega arith)
word_not_special (c ∷ w) (pos, p) = ground (arith, p.0)

-- What `acmd` stores behind the words of a command: the special character, which is read again.
abbrev pub peeked : List Text → ℕ
peeked [] = 0
peeked (_ ∷ _) = 2

-- A list of tokens that does not begin with a word.
pub data EndsWords : List Text → Type 0 where
  line_end : EndsWords []
  at_special : (c : ℕ) (ws : List Text) → isspec c ≡ true → EndsWords ((c ∷ []) ∷ ws)

abbrev pub taken : Buffers → List Text → List Text → ℕ → Parsed
taken b ws rest cnt = record {
  count = cnt + length (unlex ws);
  words = ws;
  rest = unlex rest;
  buffers = record b { cp = b.cp + length (unlex ws) + peeked rest; pp = b.pp + length ws + 1 };
}

pub acmd_loop-taken :
    (fuel : ℕ) (old : ℕ → Text) (b : Buffers) (ws : List Text) {rest : List Text} (cnt : ℕ)
    → AreWords ws
    → EndsWords rest
    → length ws < fuel
    → b.cp + length (unlex ws) + 2 ≤ 256
    → b.pp + length ws < 50
    → acmd_loop fuel old b (unlex (ws ++ rest)) cnt ≡ ok (taken b ws rest cnt)
unfolding acmd_loop
acmd_loop-taken zero old b ws cnt p e lt bytes slots = absurd (omega arith)
acmd_loop-taken (suc fuel) old b [] cnt p line_end lt bytes slots =
    let free : ltb b.pp 50 ≡ true = ground arith in
    let z : cnt + 0 ≡ cnt = omega arith in
    let z1 : b.cp + 0 + 0 ≡ b.cp = omega arith in
    let z2 : b.pp + 0 + 1 ≡ b.pp + 1 = omega arith in
    rw (nexttoken-end old b.cp, free) (rw (z, z1, z2) refl)
acmd_loop-taken (suc fuel) old b [] cnt p (at_special c ws spec) lt bytes slots =
    let free : ltb b.pp 50 ≡ true = ground arith in
    let z : cnt + 0 ≡ cnt = omega arith in
    let z1 : b.cp + 0 + 2 ≡ b.cp + 1 + 1 = omega arith in
    let z2 : b.pp + 0 + 1 ≡ b.pp + 1 = omega arith in
    rw (nexttoken-special old b.cp c ws spec (omega (arith, bytes)), free)
      (rw (spec, z, z1, z2) refl)
acmd_loop-taken (suc fuel) old b (w ∷ ws) {rest} cnt p e lt bytes slots =
    let free : ltb b.pp 50 ≡ true = ground arith in
    let run =
      nexttoken-word old b.cp w (ws ++ rest) p.0
        (omega (arith, bytes, length-append w (unlex ws))) in
    let some : (length w + 1 == 0) ≡ false = ==-ne (length w + 1) 0 (λ h. omega (arith, h)) in
    let more =
      acmd_loop-taken fuel old (record b { cp = b.cp + length w + 1; pp = b.pp + 1 }) ws
        (cnt + (length w + 1)) p.1 e (omega (arith, lt))
        (omega (arith, bytes, length-append w (unlex ws))) (omega (arith, slots)) in
    let n : length (w ++ unlex ws) ≡ length w + length (unlex ws) = length-append w (unlex ws) in
    let c1 : cnt + (length w + 1) + length (unlex ws) ≡ cnt + suc (length (w ++ unlex ws)) =
      omega (arith, n) in
    let c2 : b.cp + length w + 1 + length (unlex ws) + peeked rest
        ≡ b.cp + suc (length (w ++ unlex ws)) + peeked rest =
      omega (arith, n) in
    let c3 : b.pp + 1 + length ws + 1 ≡ b.pp + suc (length ws) + 1 = omega arith in
    rw (run, free) (rw (some, word_not_special w p.0) (rw more (rw (c1, c2, c3) refl)))
