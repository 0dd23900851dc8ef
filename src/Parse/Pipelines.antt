-- ===== src/Parse/Pipelines.antt =====
-- Whole lines: commands joined by pipes, with redirections and the background sign.
use eda.Prelude.{
  ℕ, zero, suc, ◌+◌, ◌<◌, ◌≤◌, ◌≡◌, refl, ◌∙◌, Bool, true, false, ◌==◌, ==-ne, List, [], ◌∷◌, ◌++◌,
  arith, length, length-append, Option, ok, some, none,
}
use eda.Parse.{
  Text, Buffers, fresh_buffers, Command, no_command, acmd, newcmd, newtoken, kind_of, isidentifier,
  parse_from, parse,
}
use eda.Parse.Bounds.{Room}
use eda.Parse.RoundTrip.{
  unlex, IsWord, AreWords, length-unlex, nexttoken-word, nexttoken-special, nexttoken-end, peeked,
  EndsWords, line_end, at_special, taken, acmd_loop-taken,
}

-- A line of the shell: its commands from left to right, and the rest.
pub record Pipeline : Type 0 where
  pub commands : List (List Text)
  pub input : Option Text
  pub output : Option Text
  pub in_background : Bool

abbrev pub bg_tokens : Bool → List Text
bg_tokens true = (38 ∷ []) ∷ []
bg_tokens false = []

abbrev pub out_tokens : Option Text → List Text → List Text
out_tokens none ts = ts
out_tokens (some f) ts = (62 ∷ []) ∷ f ∷ ts

abbrev pub in_tokens : Option Text → List Text → List Text
in_tokens none ts = ts
in_tokens (some f) ts = (60 ∷ []) ∷ f ∷ ts

abbrev pub tail_tokens : Pipeline → List Text
tail_tokens p = in_tokens p.input (out_tokens p.output (bg_tokens p.in_background))

abbrev pub pgm_tokens : List (List Text) → List Text → List Text
pgm_tokens [] tail = tail
pgm_tokens (c ∷ []) tail = c ++ tail
pgm_tokens (c ∷ d ∷ cs) tail = c ++ ((124 ∷ []) ∷ pgm_tokens (d ∷ cs) tail)

abbrev pub print : Pipeline → Text
print p = unlex (pgm_tokens p.commands (tail_tokens p))

abbrev pub rev_onto {ℓ} : {A : Type ℓ} → List A → List A → List A
rev_onto [] acc = acc
rev_onto (x ∷ xs) acc = rev_onto xs (x ∷ acc)

-- The command that stands for the line, the last command first
abbrev pub command_of : Pipeline → Command
command_of p = record {
  pgm = rev_onto p.commands [];
  rstdin = p.input;
  rstdout = p.output;
  background = p.in_background;
}

abbrev pub AreCommands : List (List Text) → Type 0
AreCommands [] = Unit {0}
AreCommands (c ∷ cs) = (0 < length c) × AreWords c × AreCommands cs

abbrev pub IsName : Option Text → Type 0
IsName none = Unit {0}
IsName (some f) = IsWord f × (isidentifier f ≡ true)

pub record IsPipeline (p : Pipeline) : Type 0 where
  pub some_command : 0 < length p.commands
  pub commands : AreCommands p.commands
  pub input : IsName p.input
  pub output : IsName p.output

module _ (old : ℕ → Text) where
  bg-parsed :
      (g : Bool) (fuel : ℕ) (b : Buffers) (pgm : List (List Text)) (i o : Option Text)
      → Room newtoken b (unlex (bg_tokens g))
      → length (unlex (bg_tokens g)) < fuel
      → parse_from fuel newtoken old b
          (unlex (bg_tokens g))
          (record { pgm = pgm; rstdin = i; rstdout = o; background = false })
        ≡ ok (true, record { pgm = pgm; rstdin = i; rstdout = o; background = g })
  unfolding parse_from kind_of
  bg-parsed g zero b pgm i o m lt = absurd (omega arith)
  bg-parsed false (suc fuel) b pgm i o m lt = rw (nexttoken-end old b.cp) refl
  bg-parsed true (suc fuel) b pgm i o m lt =
      rw (nexttoken-special old b.cp 38 [] refl (omega (arith, m.bytes)))
        (rw (nexttoken-end old (b.cp + 1 + 1)) refl)

  -- A redirection is read, if the rest of the line is.
  name-Room :
      (c : ℕ) (f : Text) (ts : List Text) (b : Buffers)
      → Room newtoken b (unlex ((c ∷ []) ∷ f ∷ ts))
      → Room newtoken (record b { cp = b.cp + 1 + 1 + length f + 1 }) (unlex ts)
  name-Room c f ts b m = record {
    bytes = omega (arith, m.bytes, length-append f (unlex ts));
    slots = omega (arith, m.slots, length-append f (unlex ts));
    cmds = omega (arith, m.cmds, length-append f (unlex ts));
  }

  out-parsed :
      (o : Option Text) (g : Bool) (fuel : ℕ) (b : Buffers) (pgm : List (List Text))
      (i : Option Text)
      → IsName o
      → Room newtoken b (unlex (out_tokens o (bg_tokens g)))
      → length (unlex (out_tokens o (bg_tokens g))) < fuel
      → parse_from fuel newtoken old b
          (unlex (out_tokens o (bg_tokens g)))
          (record { pgm = pgm; rstdin = i; rstdout = none; background = false })
        ≡ ok (true, record { pgm = pgm; rstdin = i; rstdout = o; background = g })
  unfolding parse_from kind_of
  out-parsed none g fuel b pgm i n m lt = bg-parsed g fuel b pgm i none m lt
  out-parsed (some f) g zero b pgm i n m lt = absurd (omega arith)
  out-parsed (some f) g (suc fuel) b pgm i n m lt =
      let len = length-append f (unlex (bg_tokens g)) in
      rw (nexttoken-special old b.cp 62 (f ∷ bg_tokens g) refl (omega (arith, m.bytes))) (
        rw (nexttoken-word old (b.cp + 1 + 1) f (bg_tokens g) n.0 (omega (arith, m.bytes, len))) (
          rw (n.1) (
            bg-parsed g fuel (record b { cp = b.cp + 1 + 1 + length f + 1 }) pgm i (some f)
              (name-Room 62 f (bg_tokens g) b m) (omega (arith, lt, len)))))

  tail-parsed :
      (i o : Option Text) (g : Bool) (fuel : ℕ) (b : Buffers) (pgm : List (List Text))
      → IsName i
      → IsName o
      → Room newtoken b (unlex (in_tokens i (out_tokens o (bg_tokens g))))
      → length (unlex (in_tokens i (out_tokens o (bg_tokens g)))) < fuel
      → parse_from fuel newtoken old b
          (unlex (in_tokens i (out_tokens o (bg_tokens g))))
          (record { pgm = pgm; rstdin = none; rstdout = none; background = false })
        ≡ ok (true, record { pgm = pgm; rstdin = i; rstdout = o; background = g })
  unfolding parse_from kind_of
  tail-parsed none o g fuel b pgm n n' m lt = out-parsed o g fuel b pgm none n' m lt
  tail-parsed (some f) o g zero b pgm n n' m lt = absurd (omega arith)
  tail-parsed (some f) o g (suc fuel) b pgm n n' m lt =
      let ts = out_tokens o (bg_tokens g) in
      let len = length-append f (unlex ts) in
      rw (nexttoken-special old b.cp 60 (f ∷ ts) refl (omega (arith, m.bytes))) (
        rw (nexttoken-word old (b.cp + 1 + 1) f ts n.0 (omega (arith, m.bytes, len))) (
          rw (n.1) (
            out-parsed o g fuel (record b { cp = b.cp + 1 + 1 + length f + 1 }) pgm (some f) n'
              (name-Room 60 f ts b m) (omega (arith, lt, len)))))

tail-EndsWords :
    (i o : Option Text) (g : Bool) → EndsWords (in_tokens i (out_tokens o (bg_tokens g)))
tail-EndsWords (some f) o g = at_special 60 _ refl
tail-EndsWords none (some f) g = at_special 62 _ refl
tail-EndsWords none none true = at_special 38 _ refl
tail-EndsWords none none false = line_end

word_chars : (ws : List Text) → AreWords ws → length ws + length ws ≤ length (unlex ws)
word_chars [] p = omega arith
word_chars (w ∷ ws) p = omega (arith, word_chars ws p.1, length-append w (unlex ws), p.0.0)

peeked_le : (ts : List Text) → peeked ts ≤ 2
peeked_le [] = omega arith
peeked_le (t ∷ ts) = omega arith

module _ (old : ℕ → Text) (b : Buffers) (c : List Text) (ts : List Text) (pos : 0 < length c)
    (p : AreWords c) (e : EndsWords ts) (m : Room newcmd b (unlex (c ++ ts))) where
  acmd-taken : acmd old b (unlex (c ++ ts)) ≡ ok (taken (record b { cmds = b.cmds + 1 }) c ts 0)
  unfolding acmd
  acmd-taken =
      let len = length-unlex c ts in
      let few : (b.cmds == 20) ≡ false = ==-ne b.cmds 20 (λ h. omega (arith, m.cmds, h)) in
      rw few (
        acmd_loop-taken (length (unlex (c ++ ts)) + 1) old (record b { cmds = b.cmds + 1 }) c 0 p e
          (omega (arith, len, word_chars c p)) (omega (arith, m.bytes, len, word_chars c p))
          (omega (arith, m.slots, len, word_chars c p)))

  -- The buffers behind the command
  abbrev after_cmd : Buffers
  after_cmd = record {
    cp = b.cp + length (unlex c) + peeked ts;
    pp = b.pp + length c + 1;
    cmds = b.cmds + 1;
  }

  after_cmd-Room : Room newtoken after_cmd (unlex ts)
  after_cmd-Room =
      let len = length-unlex c ts in
      let chars = word_chars c p in
      record {
        bytes = omega (arith, m.bytes, len, chars, pos, peeked_le ts);
        slots = omega (arith, m.slots, len, chars);
        cmds = omega (arith, m.cmds, len, chars, pos);
      }

  -- The command is put before those that have been read.
  cmd-parsed :
      (fuel : ℕ) (acc : List (List Text))
      → parse_from (suc fuel) newcmd old b (unlex (c ++ ts)) (record no_command { pgm = acc })
        ≡ parse_from fuel newtoken old after_cmd (unlex ts) (record no_command { pgm = c ∷ acc })
  unfolding parse_from
  cmd-parsed fuel acc =
      let some : (0 + length (unlex c) == 0) ≡ false =
        ==-ne (0 + length (unlex c)) 0 (λ h. omega (arith, h, word_chars c p)) in
      rw acmd-taken (rw some refl)

module _ (old : ℕ → Text) (i o : Option Text) (g : Bool) (n : IsName i) (n' : IsName o) where
  abbrev tail : List Text
  tail = in_tokens i (out_tokens o (bg_tokens g))

  pipe-parsed :
      (fuel : ℕ) (b : Buffers) (ts : List Text) (c : Command)
      → Room newtoken b (unlex ((124 ∷ []) ∷ ts))
      → parse_from (suc fuel) newtoken old b (unlex ((124 ∷ []) ∷ ts)) c
        ≡ parse_from fuel newcmd old (record b { cp = b.cp + 1 + 1 }) (unlex ts) c
  unfolding parse_from kind_of
  pipe-parsed fuel b ts c m =
      rw (nexttoken-special old b.cp 124 ts refl (omega (arith, m.bytes))) refl

  pgm-parsed :
      (cs : List (List Text)) (c : List Text) (fuel : ℕ) (b : Buffers) (acc : List (List Text))
      → AreCommands (c ∷ cs)
      → Room newcmd b (unlex (pgm_tokens (c ∷ cs) tail))
      → length (unlex (pgm_tokens (c ∷ cs) tail)) < fuel
      → parse_from fuel newcmd old b
          (unlex (pgm_tokens (c ∷ cs) tail))
          (record no_command { pgm = acc })
        ≡ ok (true, record { pgm = rev_onto (c ∷ cs) acc; rstdin = i; rstdout = o; background = g })
  pgm-parsed cs c zero b acc p m lt = absurd (omega arith)
  pgm-parsed [] c (suc fuel) b acc p m lt =
      cmd-parsed old b c tail p.0 p.1 (tail-EndsWords i o g) m fuel acc
      ∙ tail-parsed old i o g fuel (after_cmd old b c tail p.0 p.1 (tail-EndsWords i o g) m)
          (c ∷ acc) n n' (after_cmd-Room old b c tail p.0 p.1 (tail-EndsWords i o g) m)
          (omega (arith, lt, length-unlex c tail, word_chars c p.1, p.0))
  pgm-parsed (d ∷ cs) c (suc zero) b acc p m lt =
      absurd (omega (arith, lt, length-unlex c ((124 ∷ []) ∷ pgm_tokens (d ∷ cs) tail)))
  pgm-parsed (d ∷ cs) c (suc (suc fuel)) b acc p m lt =
      let ts = pgm_tokens (d ∷ cs) tail in
      let e : EndsWords ((124 ∷ []) ∷ ts) = at_special 124 ts refl in
      let m1 = after_cmd-Room old b c ((124 ∷ []) ∷ ts) p.0 p.1 e m in
      cmd-parsed old b c ((124 ∷ []) ∷ ts) p.0 p.1 e m (suc fuel) acc
      ∙ pipe-parsed fuel (after_cmd old b c ((124 ∷ []) ∷ ts) p.0 p.1 e m) ts _ m1
      ∙ pgm-parsed cs d fuel _ (c ∷ acc) p.2
          (record {
            bytes = omega (arith, m1.bytes);
            slots = omega (arith, m1.slots);
            cmds = omega (arith, m1.cmds);
          })
          (omega (arith, lt, length-unlex c ((124 ∷ []) ∷ ts), word_chars c p.1, p.0))

-- A line of at most 39 characters that prints a command, with a space before each token, parses back to
-- the command, the last one of the pipeline first, whatever the buffers held.
pub parse-print :
    (old : ℕ → Text) (p : Pipeline)
    → IsPipeline p
    → length (print p) ≤ 39
    → parse old (print p) ≡ ok (true, command_of p)
unfolding parse
parse-print old p v le = go p.commands v.some_command v.commands le
  where
    go :
        (cs : List (List Text))
        → 0 < length cs
        → AreCommands cs
        → length (unlex (pgm_tokens cs (tail_tokens p))) ≤ 39
        → parse_from
            (length (unlex (pgm_tokens cs (tail_tokens p))) + 1)
            newcmd
            old
            fresh_buffers
            (unlex (pgm_tokens cs (tail_tokens p)))
            no_command
          ≡ ok (true, record (command_of p) { pgm = rev_onto cs [] })
    go [] pos a le = absurd (omega arith)
    go (c ∷ cs) pos a le =
        pgm-parsed old p.input p.output p.in_background v.input v.output cs c
          (length (unlex (pgm_tokens (c ∷ cs) (tail_tokens p))) + 1) fresh_buffers [] a
          (record {
            bytes = omega (arith, le);
            slots = omega (arith, le);
            cmds = omega (arith, le);
          })
          (omega arith)
