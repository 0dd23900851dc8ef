-- ===== src/Tests/ShellTests.antt =====
-- The theorems on the shell, at concrete lines.
use eda.Prelude.{
  none, Option, ap, ◌%◌, ℕ, ◌≡◌, ◌+◌, zero, suc, refl, Bool, true, false, List, [], ◌∷◌, arith,
  some, ok, fault,
}
use eda.Parse.{
  Text, Command, parse, parse_from, acmd, acmd_loop, nexttoken, lex, isidentifier, is_idchar, skip,
  word_front, word_rest, kind_of,
}
use eda.Parse.Bounds.{parse-Returns}
use eda.Parse.Pipelines.{Pipeline, IsPipeline, print, command_of, parse-print}
use eda.Lsh.{Env, Event, builtin_of, strcmp_eq, run_command}
use eda.Lsh.Wiring.{IsGood}
use eda.Lsh.Pipeline.{Executes, run_command-Executes}

-- "ls", "wc", "-l", "in" and "out"
abbrev ls : Text
ls = 108 ∷ 115 ∷ []

abbrev wc : Text
wc = 119 ∷ 99 ∷ []

abbrev lines : Text
lines = 45 ∷ 108 ∷ []

abbrev in_file : Text
in_file = 105 ∷ 110 ∷ []

abbrev out_file : Text
out_file = 111 ∷ 117 ∷ 116 ∷ []

-- ls | wc -l < in > out &
abbrev two_commands : Pipeline
two_commands = record {
  commands = (ls ∷ []) ∷ (wc ∷ lines ∷ []) ∷ [];
  input = some in_file;
  output = some out_file;
  in_background = true;
}

two_commands-IsPipeline : IsPipeline two_commands
unfolding isidentifier is_idchar
two_commands-IsPipeline = record {
  some_command = omega arith;
  commands = (
    omega arith,
    ((omega arith, (refl, (refl, tt))), tt),
    (omega arith, ((omega arith, (refl, (refl, tt))), ((omega arith, (refl, (refl, tt))), tt)), tt),
  );
  input = ((omega arith, (refl, (refl, tt))), refl);
  output = ((omega arith, (refl, (refl, (refl, tt)))), refl);
}

-- Before the first line, the buffer for tokens is empty.
abbrev no_text : ℕ → Text
no_text cp = []

parse-print_example : parse no_text (print two_commands) ≡ ok (true, command_of two_commands)
parse-print_example = parse-print no_text two_commands two_commands-IsPipeline (omega arith)

parse-Returns_example : (r : Bool × Command) × (parse no_text (print two_commands) ≡ ok r)
parse-Returns_example = parse-Returns no_text (print two_commands) (omega arith)

-- Descriptor 3 is the input file, 4 the output file; pipes are read from 5, and written to at 6 and 7 in turn.
abbrev calm : Env
calm = record {
  open_result = some 3;
  creat_result = some 4;
  pipe_result = λ i. some (5, 6 + i % 2);
  fork_result = λ i. i + 100;
  chdir_fails = λ i. false;
}

abbrev number : Option ℕ → ℕ
number none = 0
number (some fd) = fd

abbrev ends : Option (ℕ × ℕ) → ℕ × ℕ
ends none = (0, 0)
ends (some e) = e

calm_ends : (i r w : ℕ) → calm.pipe_result i ≡ some (r, w) → (5 ≡ r) × (6 + i % 2 ≡ w)
calm_ends i r w e = (ap (λ o. (ends o).0) e, ap (λ o. (ends o).1) e)

calm-IsGood : IsGood calm
calm-IsGood = record {
  pipes = λ i. (5, 6 + i % 2, refl);
  high = λ i r w e.
      let (a, b) = calm_ends i r w e in
      (omega (arith, a), omega (arith, b), λ u. omega (arith, a, b, u));
  fresh = λ i {r} {w} {r'} {w'} e e'.
      let (a, b) = calm_ends i r w e in
      let (a', b') = calm_ends (suc i) r' w' e' in
      (λ u. omega (arith, a', b, u), λ u. omega (arith, b', b, u));
  opened_fd = (3, refl, omega arith, λ i r w e u. omega (arith, (calm_ends i r w e).1, u));
  created_fd = (
    4,
    refl,
    omega arith,
    λ e. omega (arith, ap number e),
    λ r w e. let (a, b) = calm_ends 0 r w e in (λ u. omega (arith, a, u), λ u. omega (arith, b, u)),
  );
}

abbrev reversed : Command
reversed = record {
  pgm = (wc ∷ lines ∷ []) ∷ (ls ∷ []) ∷ [];
  rstdin = some in_file;
  rstdout = some out_file;
  background = false;
}

run_command-Executes_example :
    (es : List Event) × (run_command calm true reversed ≡ ok es) × Executes calm reversed es
unfolding builtin_of strcmp_eq
run_command-Executes_example =
    run_command-Executes calm-IsGood (wc ∷ lines ∷ []) ((ls ∷ []) ∷ []) (refl, (refl, tt))
      (some in_file) (some out_file) false true

-- A line of twenty commands "a|": `acmd` is called a twenty-first time, when `cmds` is NULL.
abbrev bars : ℕ → Text
bars zero = []
bars (suc n) = 97 ∷ 124 ∷ bars n

parse-bars : parse no_text (bars 20) ≡ fault
unfolding parse parse_from acmd acmd_loop nexttoken lex skip word_front word_rest kind_of
parse-bars = refl
