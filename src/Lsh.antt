-- ===== src/Lsh.antt =====
-- lab1/lsh.c: the shell. What the calls of the system return is an argument (`Env`); what the shell asks
-- of the system is the list of its events. `fault` is a read of memory that nothing was written to.
pub mod Wiring
pub mod Strip
pub mod Pipeline
pub mod Standard
use eda.Prelude.{
  ℕ, zero, suc, ◌+◌, ◌-◌, ◌&&◌, ◌||◌, Bool, true, false, not, List, [], ◌∷◌, ◌++◌, Option, none,
  some, ltb, ◌==◌, if◌then◌else◌, length, get_elem?, take, Result, ok, panic, fault, ◌>>=◌,
}
use eda.Parse.{Text, isspace, skip, Command, parse}

-- What `open`, `creat`, `pipe`, `fork` and `chdir` return; the last three for the command with the given
-- index. `none` is -1.
pub record Env : Type 0 where
  pub open_result : Option ℕ
  pub creat_result : Option ℕ
  pub pipe_result : ℕ → Option (ℕ × ℕ)
  pub fork_result : ℕ → ℕ
  pub chdir_fails : ℕ → Bool

-- A call of a child before it runs its command
pub data ChildCall : Type 0 where
  child_close : ℕ → ChildCall
  dup2 : ℕ → ℕ → ChildCall

-- A child: its calls and its command
pub record Child : Type 0 where
  pub calls : List ChildCall
  pub argv : List Text

-- What the shell itself asks of the system
pub data Event : Type 0 where
  opened : ℕ → Event
  piped : ℕ → ℕ → Event
  closed : ℕ → Event
  forked : ℕ → Child → Event
  changed_dir : Option Text → Event
  waited : ℕ → Event
  reported : Event
  exited : Event

-- `CountCommands`
unfoldable pub count_commands : List (List Text) → ℕ
count_commands [] = 0
count_commands (c ∷ pgm) = suc (count_commands pgm)

unfoldable pub strcmp_eq : Text → Text → Bool
strcmp_eq [] [] = true
strcmp_eq (a ∷ s) (b ∷ t) = a == b && strcmp_eq s t
strcmp_eq _ _ = false

-- "exit" and "cd"
abbrev pub exit_name : Text
exit_name = 101 ∷ 120 ∷ 105 ∷ 116 ∷ []

abbrev pub cd_name : Text
cd_name = 99 ∷ 100 ∷ []

-- `if (fd != std) close (fd);`
abbrev pub close_unless : ℕ → ℕ → List Event
close_unless std fd = if fd == std then [] else closed fd ∷ []

-- What a child does, with the write end of a new pipe where it is not the last.
abbrev pub child_calls : Option ℕ → ℕ → ℕ → List ChildCall
child_calls write_end child_in child_out =
    (elim write_end [ none ↦ [] | some w ↦ if w == 1 then [] else child_close w ∷ [] ])
    ++ ((if child_in == 0 then [] else dup2 child_in 0 ∷ child_close child_in ∷ [])
        ++ (if child_out == 1 then [] else dup2 child_out 1 ∷ child_close child_out ∷ []))

-- What the loop of `RunCommand` leaves: its events, the pids that it has stored, by index, the count of
-- commands to wait for, and whether the shell has exited.
pub record Ran : Type 0 where
  pub events : List Event
  pub pids : List (Option ℕ)
  pub counter : ℕ
  pub has_exited : Bool

abbrev pub before : List Event → Ran → Ran
before es r = record r { events = es ++ r.events }

abbrev pub with_pid : Option ℕ → Ran → Ran
with_pid p r = record r { pids = p ∷ r.pids }

-- The word at index 1 of a command, or NULL
abbrev pub argument : List Text → Option Text
argument (c ∷ a ∷ _) = some a
argument _ = none

abbrev pub is_nil {ℓ} : {A : Type ℓ} → List A → Bool
is_nil [] = true
is_nil (_ ∷ _) = false

-- The kinds of command: `exit`, `cd`, and one to be run by a child
pub data Builtin : Type 0 where
  is_exit is_cd external no_name : Builtin

unfoldable pub builtin_of : List Text → Builtin
builtin_of [] = no_name
builtin_of (c ∷ _) =
    if strcmp_eq exit_name c then is_exit else if strcmp_eq cd_name c then is_cd else external

-- One turn of the loop behind the call of `pipe`: the command has index `i`, reads from `child_in` and
-- writes to `child_out`; `more out counter` is the rest of the loop.
unfoldable pub run_one :
    Env → ℕ → ℕ → Option ℕ → ℕ → ℕ → List Text → (ℕ → ℕ → Result Ran) → Result Ran
run_one env i counter write_end child_in child_out command more = elim (builtin_of command) [
  | no_name ↦ fault
  | is_exit ↦ ok (record { events = exited ∷ []; pids = []; counter = counter; has_exited = true })
  | is_cd ↦ more child_out 0 >>= λ r. ok (
      before (changed_dir (argument command) ∷ (if env.chdir_fails i then reported ∷ [] else []))
        (with_pid none r))
  | external ↦ more (elim write_end [ none ↦ child_out | some w ↦ w ]) counter >>= λ r. ok (
      before
        (forked (env.fork_result i)
            (record { calls = child_calls write_end child_in child_out; argv = command })
          ∷ (close_unless 0 child_in ++ close_unless 1 child_out))
        (with_pid (some (env.fork_result i)) r))
]

-- `pipe`: on failure the loop is left; else it goes on with the write end and the read end.
unfoldable pub with_pipe : Option (ℕ × ℕ) → ℕ → ℕ → (ℕ → ℕ → Result Ran) → Result Ran
with_pipe none counter child_out run = ok (record {
  events = reported ∷ close_unless 1 child_out;
  pids = [];
  counter = counter;
  has_exited = false;
})
with_pipe (some e) counter child_out run = run e.1 e.0 >>= λ r. ok (before (piped e.0 e.1 ∷ []) r)

-- The loop of `RunCommand`, from the command with index `i` on
unfoldable pub run_loop : Env → ℕ → ℕ → ℕ → ℕ → List (List Text) → Result Ran
run_loop env i counter last_in child_out [] =
    ok (record { events = []; pids = []; counter = counter; has_exited = false })
run_loop env i counter last_in child_out (command ∷ pgm) =
    if is_nil pgm
    then run_one env i counter none last_in child_out command
        (λ out n. run_loop env (suc i) n last_in out pgm)
    else with_pipe (env.pipe_result i) counter child_out (λ w r.
      run_one env i counter (some w) r child_out command
        (λ out n. run_loop env (suc i) n last_in out pgm))

-- The loop over `waitpid`
unfoldable pub wait_loop : ℕ → List (Option ℕ) → Result (List Event)
wait_loop zero pids = ok []
wait_loop (suc n) (some p ∷ pids) = wait_loop n pids >>= λ es. ok (waited p ∷ es)
wait_loop (suc n) _ = fault

-- `RunCommand` behind the redirections
unfoldable pub run_all : Env → Command → ℕ → ℕ → Result (List Event)
run_all env cmd last_in child_out =
    run_loop env 0 (count_commands cmd.pgm) last_in child_out cmd.pgm >>= λ r.
    if r.has_exited || cmd.background
    then ok r.events
    else (wait_loop r.counter r.pids >>= λ ws. ok (r.events ++ ws))

-- `open` or `creat`: on failure an error is printed and what is open is closed.
unfoldable pub with_fd : Option ℕ → List Event → (ℕ → Result (List Event)) → Result (List Event)
with_fd none cleanup more = ok (reported ∷ cleanup)
with_fd (some fd) cleanup more = more fd >>= λ es. ok (opened fd ∷ es)

-- `RunCommand` behind the redirection of the input
unfoldable pub redirect_out : Env → Command → ℕ → Result (List Event)
redirect_out env cmd last_in = elim cmd.rstdout [
  | none ↦ run_all env cmd last_in 1
  | some name ↦ with_fd env.creat_result (close_unless 0 last_in) (λ fd. run_all env cmd last_in fd)
]

-- `RunCommand`; the result of the parser is not used.
unfoldable pub run_command : Env → Bool → Command → Result (List Event)
run_command env parse_result cmd = elim cmd.rstdin [
  | none ↦ redirect_out env cmd 0
  | some name ↦ with_fd env.open_result [] (λ fd. redirect_out env cmd fd)
]

-- `isspace (string[i])`
abbrev pub space_at : Text → ℕ → Bool
space_at s i = elim (get_elem? s i) [ none ↦ false | some c ↦ isspace c ]

-- The last index above 0 that does not hold a space, from `i` down; 0 if there is none.
unfoldable pub last_index : Text → ℕ → ℕ
last_index s zero = 0
last_index s (suc i) = if space_at s (suc i) then last_index s i else suc i

-- The end of `stripwhite`: an empty string is left alone.
unfoldable pub strip_end : Text → Text
strip_end [] = []
strip_end (c ∷ s) = take (last_index (c ∷ s) (length s) + 1) (c ∷ s)

-- `stripwhite`: spaces at the front are moved over, then those at the end are cut off.
unfoldable pub stripwhite : Text → Text
stripwhite s = strip_end (skip s)

-- One turn of the loop of `main`
unfoldable pub run_line : Env → (ℕ → Text) → Text → Result (List Event)
run_line env old line =
    let s = stripwhite line in
    if is_nil s then ok [] else (parse old s >>= λ r. run_command env r.0 r.1)
