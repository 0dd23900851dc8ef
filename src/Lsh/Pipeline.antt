-- ===== src/Lsh/Pipeline.antt =====
-- `RunCommand` as a whole, on commands that are run by children.
use mathlib.Core.Path.{subst}
use eda.Prelude.{
  ℕ, suc, ◌+◌, ◌≡◌, ◌≢◌, refl, sym, ◌∙◌, ap, Bool, true, false, List, [], ◌∷◌, ◌++◌, arith,
  if◌then◌else◌, map, Option, some, none, Result, ok,
}
use eda.Parse.{Text, Command}
use eda.Lsh.{
  Env, Event, opened, piped, closed, forked, changed_dir, waited, reported, exited, count_commands,
  wait_loop, run_all, with_fd, redirect_out, run_command,
}
use eda.Lsh.Wiring.{
  opens, closes, children, waits, one, one_unless, one_unless_lem, IsApart, IsGood, AreExternal,
  Wired, pids_from, run_loop-Runs,
}

-- What the events of `wait_loop` add to the counts.
record AddsWaits (a b : List Event) (ps : List ℕ) : Type 0 where
  same_opens : (fd : ℕ) → opens fd b ≡ opens fd a
  same_closes : (fd : ℕ) → closes fd b ≡ closes fd a
  same_children : children b ≡ children a
  more_waits : waits b ≡ waits a ++ ps

waited_all : (ps : List ℕ) → AddsWaits [] (map waited ps) ps
waited_all [] = record {
  same_opens = λ fd. refl;
  same_closes = λ fd. refl;
  same_children = refl;
  more_waits = refl;
}
waited_all (p ∷ ps) =
    let t = waited_all ps in
    record {
      same_opens = t.same_opens;
      same_closes = t.same_closes;
      same_children = t.same_children;
      more_waits = ap (λ l. p ∷ l) t.more_waits;
    }

append-AddsWaits : (a b : List Event) (ps : List ℕ) → AddsWaits [] b ps → AddsWaits a (a ++ b) ps
append-AddsWaits [] b ps h = h
append-AddsWaits (opened d ∷ a) b ps h =
    let t = append-AddsWaits a b ps h in
    record {
      same_opens = λ fd. ap (λ n. one fd d + n) (t.same_opens fd);
      same_closes = t.same_closes;
      same_children = t.same_children;
      more_waits = t.more_waits;
    }
append-AddsWaits (piped r w ∷ a) b ps h =
    let t = append-AddsWaits a b ps h in
    record {
      same_opens = λ fd. ap (λ n. one fd r + one fd w + n) (t.same_opens fd);
      same_closes = t.same_closes;
      same_children = t.same_children;
      more_waits = t.more_waits;
    }
append-AddsWaits (closed d ∷ a) b ps h =
    let t = append-AddsWaits a b ps h in
    record {
      same_opens = t.same_opens;
      same_closes = λ fd. ap (λ n. one fd d + n) (t.same_closes fd);
      same_children = t.same_children;
      more_waits = t.more_waits;
    }
append-AddsWaits (forked p c ∷ a) b ps h =
    let t = append-AddsWaits a b ps h in
    record {
      same_opens = t.same_opens;
      same_closes = t.same_closes;
      same_children = ap (λ ks. c ∷ ks) t.same_children;
      more_waits = t.more_waits;
    }
append-AddsWaits (waited p ∷ a) b ps h =
    let t = append-AddsWaits a b ps h in
    record {
      same_opens = t.same_opens;
      same_closes = t.same_closes;
      same_children = t.same_children;
      more_waits = ap (λ l. p ∷ l) t.more_waits;
    }
append-AddsWaits (changed_dir d ∷ a) b ps h =
    let t = append-AddsWaits a b ps h in
    record {
      same_opens = t.same_opens;
      same_closes = t.same_closes;
      same_children = t.same_children;
      more_waits = t.more_waits;
    }
append-AddsWaits (reported ∷ a) b ps h =
    let t = append-AddsWaits a b ps h in
    record {
      same_opens = t.same_opens;
      same_closes = t.same_closes;
      same_children = t.same_children;
      more_waits = t.more_waits;
    }
append-AddsWaits (exited ∷ a) b ps h =
    let t = append-AddsWaits a b ps h in
    record {
      same_opens = t.same_opens;
      same_closes = t.same_closes;
      same_children = t.same_children;
      more_waits = t.more_waits;
    }

wait_loop-waited :
    (env : Env) (i : ℕ) (pgm : List (List Text))
    → wait_loop (count_commands pgm) (map some (pids_from env i pgm))
      ≡ ok (map waited (pids_from env i pgm))
unfolding wait_loop count_commands
wait_loop-waited env i [] = refl
wait_loop-waited env i (c ∷ pgm) = rw (wait_loop-waited env (suc i) pgm) refl

-- What the shell does for the pipeline `pgm`, which reads from `input` and writes to `output`, but for
-- opening them.
record Does (env : Env) (input output : ℕ) (pgm : List (List Text)) (bg : Bool) (es : List Event)
    : Type 0 where
  balance : (fd : ℕ) → closes fd es ≡ opens fd es + one_unless 0 fd input + one_unless 1 fd output
  wired : Wired env input 0 output pgm (children es)
  waits_for : waits es ≡ (if bg then [] else pids_from env 0 pgm)

-- The input of the pipeline does not clash with the output of the shell or of a pipe.
abbrev IsInput : Env → ℕ → Type 0
IsInput env input = (input ≢ 1) × ((i r w : ℕ) → env.pipe_result i ≡ some (r, w) → w ≢ input)

module _ {env : Env} (good : IsGood env) (c : List Text) (pgm : List (List Text))
    (ext : AreExternal (c ∷ pgm)) (i o : Option Text) where
  abbrev cmd : Bool → Command
  cmd g = record { pgm = c ∷ pgm; rstdin = i; rstdout = o; background = g }

  run_all-Does :
      (g : Bool) (input output : ℕ)
      → IsInput env input
      → IsApart env input 0 output
      → (es : List Event) × (run_all env (cmd g) input output ≡ ok es)
        × Does env input output (c ∷ pgm) g es
  unfolding run_all
  run_all-Does true input output (in_ne, in_apart) apart =
      let (r, run, t) =
        run_loop-Runs good (count_commands (c ∷ pgm)) input in_ne in_apart pgm c 0 output ext
          apart in
      (
        r.events,
        rw run (rw t.goes_on refl),
        record { balance = t.balance; wired = t.wired; waits_for = t.no_waits },
      )
  run_all-Does false input output (in_ne, in_apart) apart =
      let (r, run, t) =
        run_loop-Runs good (count_commands (c ∷ pgm)) input in_ne in_apart pgm c 0 output ext
          apart in
      let ps = pids_from env 0 (c ∷ pgm) in
      let a = append-AddsWaits r.events (map waited ps) ps (waited_all ps) in
      (
        r.events ++ map waited ps,
        rw run
            (rw (t.goes_on, t.same_counter, t.stored) (rw (wait_loop-waited env 0 (c ∷ pgm)) refl)),
        record {
          balance = λ fd. omega (arith, a.same_closes fd, a.same_opens fd, t.balance fd);
          wired = subst (λ ks. Wired env input 0 output (c ∷ pgm) ks) (sym a.same_children) t.wired;
          waits_for = a.more_waits ∙ ap (λ l. l ++ ps) t.no_waits;
        },
      )

abbrev value : Option ℕ → ℕ
value none = 0
value (some fd) = fd

-- The descriptors of the first input and the last output, where the files can be opened
abbrev pub fd_or : ℕ → Option Text → Option ℕ → ℕ
fd_or std none result = std
fd_or std (some name) none = std
fd_or std (some name) (some fd) = fd

with_fd-some :
    {r : Option ℕ} {fd : ℕ} (cleanup : List Event) (more : ℕ → Result (List Event))
    {es : List Event}
    → r ≡ some fd
    → more fd ≡ ok es
    → with_fd r cleanup more ≡ ok (opened fd ∷ es)
unfolding with_fd
with_fd-some cleanup more made run = rw made (rw run refl)

-- What `RunCommand` does for a command: the shell closes each descriptor as often as it opens it; the
-- children, after their own calls, are connected in a row, from the input of the command to its output; and the shell waits
-- for each of them, in the order of their start, unless the command runs in the background.
pub record Executes (env : Env) (cmd : Command) (es : List Event) : Type 0 where
  pub balance : (fd : ℕ) → closes fd es ≡ opens fd es
  pub wired :
      Wired env
        (fd_or 0 cmd.rstdin env.open_result)
        0
        (fd_or 1 cmd.rstdout env.creat_result)
        cmd.pgm
        (children es)
  pub waits_for : waits es ≡ (if cmd.background then [] else pids_from env 0 cmd.pgm)

module _ {env : Env} (good : IsGood env) (c : List Text) (pgm : List (List Text))
    (ext : AreExternal (c ∷ pgm)) where
  -- The events behind the opening of the input
  redirect_out-Does :
      (i o : Option Text) (g : Bool) (input : ℕ)
      → IsInput env input
      → (env.creat_result ≢ some input)
      → (es : List Event) × (redirect_out env (cmd good c pgm ext i o g) input ≡ ok es)
        × ((fd : ℕ) → closes fd es ≡ opens fd es + one_unless 0 fd input)
        × Wired env input 0 (fd_or 1 o env.creat_result) (c ∷ pgm) (children es)
        × (waits es ≡ (if g then [] else pids_from env 0 (c ∷ pgm)))
  unfolding redirect_out
  redirect_out-Does i none g input from apart =
      let screen : IsApart env input 0 1 = record {
        out_ne = omega arith;
        in_out = λ e. from.0 e;
        pipe_out = λ {r} {w} made.
            let (r_lo, w_lo, ends) = good.high 0 r w made in
            (λ e. omega (arith, e, r_lo), λ e. omega (arith, e, w_lo));
      } in
      let (es, run, d) = run_all-Does good c pgm ext i none g input 1 from screen in
      (es, run, λ fd. omega (arith, d.balance fd), d.wired, d.waits_for)
  redirect_out-Does i (some name) g input from apart =
      let (out, made, lo, other, pipe) = good.created_fd in
      let file : IsApart env input 0 out = record {
        out_ne = λ e. omega (arith, e, lo);
        in_out = λ e. apart (made ∙ ap some (sym e));
        pipe_out = λ {r} {w} piped. pipe r w piped;
      } in
      let (es, run, d) = run_all-Does good c pgm ext i (some name) g input out from file in
      (
        opened out ∷ es,
        with_fd-some _ _ made run,
        λ fd. omega (arith, d.balance fd, one_unless_lem 1 fd out (ground (arith, lo))),
        subst (λ n. Wired env input 0 n (c ∷ pgm) (children es))
            (sym (ap (fd_or 1 (some name)) made)) d.wired,
        d.waits_for,
      )

  -- If the files can be opened, all pipes be made, no descriptor of them is a standard one or one
  -- that is still open, and no command is built in, RunCommand returns on any non-empty list of
  -- commands, whatever the parser has returned: the shell closes each descriptor as often as it
  -- opens it; after its calls of dup2 and close each child has as its standard input and output the
  -- descriptors that connect the children in a row from the input of the command to its output, each
  -- by the pipe made for it, and has closed the write end of the pipe that it reads from; and the
  -- shell waits for each of them, in the order of their start, unless the command runs in the
  -- background.
  pub run_command-Executes :
      (i o : Option Text) (g parse_result : Bool)
      → (es : List Event) × (run_command env parse_result (cmd good c pgm ext i o g) ≡ ok es)
        × Executes env (cmd good c pgm ext i o g) es
  unfolding run_command
  run_command-Executes none o g parse_result =
      let no_clash : env.creat_result ≢ some 0 = λ e.
        let (out, made, lo, other, pipe) = good.created_fd in
        omega (arith, lo, ap value (sym made ∙ e)) in
      let from : IsInput env 0 =
        (λ e. omega (arith, e), λ i r w made e. omega (arith, e, (good.high i r w made).1)) in
      let (es, run, b, w, ws) = redirect_out-Does none o g 0 from no_clash in
      (es, run, record { balance = λ fd. omega (arith, b fd); wired = w; waits_for = ws })
  run_command-Executes (some name) o g parse_result =
      let (fd0, made, lo, pipe) = good.opened_fd in
      let no_clash : env.creat_result ≢ some fd0 = λ e.
        let (out, made2, lo2, other, pipe2) = good.created_fd in other (made ∙ sym e ∙ made2) in
      let from : IsInput env fd0 = (λ e. omega (arith, e, lo), pipe) in
      let (es, run, b, w, ws) = redirect_out-Does (some name) o g fd0 from no_clash in
      (
        opened fd0 ∷ es,
        with_fd-some _ _ made run,
        record {
          balance = λ fd. omega (arith, b fd, one_unless_lem 0 fd fd0 (ground (arith, lo)));
          wired =
              subst (λ n. Wired env n 0 (fd_or 1 o env.creat_result) (c ∷ pgm) (children es))
                (sym (ap (fd_or 0 (some name)) made)) w;
          waits_for = ws;
        },
      )
