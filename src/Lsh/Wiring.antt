-- ===== src/Lsh/Wiring.antt =====
-- How the commands of a pipeline are connected, and what the shell closes and waits for.
use mathlib.Core.Path.{subst}
use eda.Prelude.{
  ℕ, suc, ◌+◌, ◌<◌, ◌≡◌, ◌≢◌, refl, sym, ◌∙◌, ap, false, ◌==◌, List, [], ◌∷◌, ◌++◌, arith,
  if◌then◌else◌, map, Option, some, none, Result, ok,
}
use eda.Lsh.Standard.{descriptors, child_calls_last, child_calls-IsStandard}
use eda.Parse.{Text}
use eda.Lsh.{
  Env, Child, Event, opened, piped, closed, forked, waited, close_unless, child_calls, Ran,
  external, builtin_of, run_one, with_pipe, run_loop,
}

-- How often the descriptor `fd` is opened and closed by the shell
abbrev pub one : ℕ → ℕ → ℕ
one fd d = if d == fd then 1 else 0

abbrev pub opens : ℕ → List Event → ℕ
opens fd [] = 0
opens fd (opened d ∷ es) = one fd d + opens fd es
opens fd (piped r w ∷ es) = one fd r + one fd w + opens fd es
opens fd (_ ∷ es) = opens fd es

abbrev pub closes : ℕ → List Event → ℕ
closes fd [] = 0
closes fd (closed d ∷ es) = one fd d + closes fd es
closes fd (_ ∷ es) = closes fd es

abbrev pub children : List Event → List Child
children [] = []
children (forked p c ∷ es) = c ∷ children es
children (_ ∷ es) = children es

abbrev pub waits : List Event → List ℕ
waits [] = []
waits (waited p ∷ es) = p ∷ waits es
waits (_ ∷ es) = waits es

-- What the shell relies on: all pipes are made and the files opened, none of the descriptors is a standard
-- one, and a new descriptor is not one that is still open: the ends of a pipe are not each other, nor the
-- write end of the pipe before, nor a file.
pub record IsGood (env : Env) : Type 0 where
  pub pipes : (i : ℕ) → (r : ℕ) × (w : ℕ) × (env.pipe_result i ≡ some (r, w))
  pub high : (i r w : ℕ) → env.pipe_result i ≡ some (r, w) → (1 < r) × (1 < w) × (w ≢ r)
  pub fresh :
      (i : ℕ) {r w r' w' : ℕ}
      → env.pipe_result i ≡ some (r, w)
      → env.pipe_result (suc i) ≡ some (r', w')
      → (r' ≢ w) × (w' ≢ w)
  pub opened_fd :
      (fd : ℕ) × (env.open_result ≡ some fd)
      × (1 < fd)
      × ((i r w : ℕ) → env.pipe_result i ≡ some (r, w) → w ≢ fd)
  pub created_fd :
      (fd : ℕ) × (env.creat_result ≡ some fd)
      × (1 < fd)
      × (env.open_result ≢ some fd)
      × ((r w : ℕ) → env.pipe_result 0 ≡ some (r, w) → (r ≢ fd) × (w ≢ fd))

abbrev pub AreExternal : List (List Text) → Type 0
AreExternal [] = Unit {0}
AreExternal (c ∷ pgm) = (builtin_of c ≡ external) × AreExternal pgm

-- Of the commands from index `i` on, the child of the last of the list has the shell's `last_in` as its
-- standard input, and that of the first has `out` as its standard output; of each other pair one writes to
-- the pipe that was made for it and the other reads from it, and the reader has closed the write end.
pub data Wired (env : Env) (last_in : ℕ) : ℕ → ℕ → List (List Text) → List Child → Type 0 where
  wired_last :
      {i out : ℕ} {c : List Text} {k : Child}
      → k.argv ≡ c
      → descriptors k 0 ≡ some last_in
      → descriptors k 1 ≡ some out
      → Wired env last_in i out (c ∷ []) (k ∷ [])
  wired_pipe :
      {i out r w : ℕ} {c d : List Text} {pgm : List (List Text)} {k : Child} {ks : List Child}
      → env.pipe_result i ≡ some (r, w)
      → k.argv ≡ c
      → descriptors k 0 ≡ some r
      → descriptors k 1 ≡ some out
      → descriptors k w ≡ none
      → Wired env last_in (suc i) w (d ∷ pgm) ks
      → Wired env last_in i out (c ∷ d ∷ pgm) (k ∷ ks)

-- The pids of the commands from index `i` on
abbrev pub pids_from : Env → ℕ → List (List Text) → List ℕ
pids_from env i [] = []
pids_from env i (c ∷ pgm) = env.fork_result i ∷ pids_from env (suc i) pgm

-- Closing a descriptor unless it is `std`
abbrev pub one_unless : ℕ → ℕ → ℕ → ℕ
one_unless std fd d = if d == std then 0 else one fd d

pub one_unless_lem : (std fd d : ℕ) → (d == std) ≡ false → one_unless std fd d ≡ one fd d
one_unless_lem std fd d h = rw h refl

-- What a turn of the loop with the child `k` adds to the events `es` of the rest.
abbrev turn : ℕ → ℕ → ℕ → Child → List Event → List Event
turn input output p k es = (forked p k ∷ (close_unless 0 input ++ close_unless 1 output)) ++ es

module _ (input output p : ℕ) (k : Child) (es : List Event) where
  closes-turn :
      (fd : ℕ)
      → closes fd (turn input output p k es)
        ≡ one_unless 0 fd input + one_unless 1 fd output + closes fd es
  closes-turn fd = ground arith

  opens-turn : (fd : ℕ) → opens fd (turn input output p k es) ≡ opens fd es
  opens-turn fd = ground arith

  children-turn : children (turn input output p k es) ≡ k ∷ children es
  children-turn = ground arith

  waits-turn : waits (turn input output p k es) ≡ waits es
  waits-turn = ground arith

-- What the loop has done for the commands from index `i` on.
pub record Runs (env : Env) (i counter last_in out : ℕ) (pgm : List (List Text)) (r : Ran)
    : Type 0 where
  pub goes_on : r.has_exited ≡ false
  pub same_counter : r.counter ≡ counter
  pub stored : r.pids ≡ map some (pids_from env i pgm)
  pub balance :
      (fd : ℕ)
      → closes fd r.events ≡ opens fd r.events + one_unless 0 fd last_in + one_unless 1 fd out
  pub wired : Wired env last_in i out pgm (children r.events)
  pub no_waits : waits r.events ≡ []

-- The child that is started for a command
abbrev child_of : Option ℕ → ℕ → ℕ → List Text → Child
child_of write_end child_in child_out c = record {
  calls = child_calls write_end child_in child_out;
  argv = c;
}

run_one-turn :
    (env : Env) (i counter : ℕ) (write_end : Option ℕ) (child_in child_out : ℕ) (c : List Text)
    (more : ℕ → ℕ → Result Ran) {r : Ran}
    → builtin_of c ≡ external
    → more (elim write_end [ none ↦ child_out | some w ↦ w ]) counter ≡ ok r
    → run_one env i counter write_end child_in child_out c more
      ≡ ok (record r {
        events =
            turn child_in child_out
              (env.fork_result i)
              (child_of write_end child_in child_out c)
              r.events;
        pids = some (env.fork_result i) ∷ r.pids;
      })
unfolding run_one
run_one-turn env i counter write_end child_in child_out c more ext run =
    rw (ext, run_one) (rw run refl)

-- The descriptors at the turn with index `i` do not clash.
pub record IsApart (env : Env) (last_in i out : ℕ) : Type 0 where
  pub out_ne : out ≢ 0
  pub in_out : last_in ≢ out
  pub pipe_out : {r w : ℕ} → env.pipe_result i ≡ some (r, w) → (r ≢ out) × (w ≢ out)

module _ {env : Env} (good : IsGood env) (counter last_in : ℕ) (in_ne : last_in ≢ 1)
    (in_apart : (i r w : ℕ) → env.pipe_result i ≡ some (r, w) → w ≢ last_in) where
  pub run_loop-Runs :
      (pgm : List (List Text)) (c : List Text) (i out : ℕ)
      → AreExternal (c ∷ pgm)
      → IsApart env last_in i out
      → (r : Ran) × (run_loop env i counter last_in out (c ∷ pgm) ≡ ok r)
        × Runs env i counter last_in out (c ∷ pgm) r
  unfolding run_loop with_pipe
  run_loop-Runs [] c i out ext apart =
      let k = child_of none last_in out c in
      let (at_in, at_out) = child_calls_last last_in out in_ne apart.out_ne apart.in_out in
      (
        _,
        run_one-turn env i counter none last_in out c _ ext.0 refl,
        record {
          goes_on = refl;
          same_counter = refl;
          stored = refl;
          balance = λ fd. ground arith;
          wired =
              subst (λ ks. Wired env last_in i out (c ∷ []) ks)
                (sym (children-turn last_in out (env.fork_result i) k []))
                (wired_last refl at_in at_out);
          no_waits = waits-turn last_in out (env.fork_result i) k [];
        },
      )
  run_loop-Runs (d ∷ pgm) c i out ext apart =
      let (r, w, made) = good.pipes i in
      let (r_lo, w_lo, ends) = good.high i r w made in
      let (r_out, w_out) = apart.pipe_out made in
      let next : IsApart env last_in (suc i) w = record {
        out_ne = λ e. omega (arith, e, w_lo);
        in_out = λ e. in_apart i r w made (sym e);
        pipe_out = λ made2. good.fresh i made made2;
      } in
      let (q, run, t) = run_loop-Runs pgm d (suc i) w ext.1 next in
      let k = child_of (some w) r out c in
      let st =
        child_calls-IsStandard r out w (λ e. omega (arith, e, r_lo)) apart.out_ne r_out
          (λ e. omega (arith, e, w_lo)) (λ e. omega (arith, e, w_lo)) ends w_out in
      (
        record q {
          events = piped r w ∷ turn r out (env.fork_result i) k q.events;
          pids = some (env.fork_result i) ∷ q.pids;
        },
        rw made (rw (run_one-turn env i counter (some w) r out c _ ext.0 run) refl),
        record {
          goes_on = t.goes_on;
          same_counter = t.same_counter;
          stored = ap (λ ps. some (env.fork_result i) ∷ ps) t.stored;
          balance = λ fd. omega (
            arith,
            closes-turn r out (env.fork_result i) k q.events fd,
            opens-turn r out (env.fork_result i) k q.events fd,
            t.balance fd,
            one_unless_lem 0 fd r (ground (arith, r_lo)),
            one_unless_lem 1 fd w (ground (arith, w_lo)),
          );
          wired =
              subst (λ ks. Wired env last_in i out (c ∷ d ∷ pgm) ks)
                (sym (children-turn r out (env.fork_result i) k q.events))
                (wired_pipe made refl st.input st.output st.closed_end t.wired);
          no_waits = waits-turn r out (env.fork_result i) k q.events ∙ t.no_waits;
        },
      )
