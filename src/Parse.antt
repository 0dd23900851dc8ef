-- ===== src/Parse.antt =====
-- lab1/parse.c: the parser of the shell's command lines. A line is the list of its characters, without
-- the zero at its end; a pointer into it is the list from there on. Of the static buffers `cbuf`,
-- `pbuf` and `cmdbuf` the state keeps how much of each is in use; a string or a command in them stands
-- for itself. `fault` is an access outside a buffer, `panic` a loop without fuel.
pub mod Lexer
pub mod Bounds
pub mod RoundTrip
pub mod Pipelines
use eda.Prelude.{
  ℕ, zero, suc, ◌+◌, ◌-◌, ◌&&◌, ◌||◌, Bool, true, false, not, List, [], ◌∷◌, Option, none, some,
  ltb, leb, ◌==◌, if◌then◌else◌, length, Result, ok, panic, fault, ◌>>=◌,
}

abbrev pub Text : Type 0
Text = List ℕ

-- `isspace` and `isalnum` of the C locale
abbrev pub isspace : ℕ → Bool
isspace c = c == 32 || (leb 9 c && leb c 13)

abbrev pub isalnum : ℕ → Bool
isalnum c = (leb 48 c && leb c 57) || ((leb 65 c && leb c 90) || (leb 97 c && leb c 122))

abbrev pub pipe_char : ℕ
pipe_char = 124

abbrev pub bg_char : ℕ
bg_char = 38

abbrev pub rin_char : ℕ
rin_char = 60

abbrev pub rut_char : ℕ
rut_char = 62

abbrev pub isspec : ℕ → Bool
isspec c = c == pipe_char || (c == bg_char || (c == rin_char || c == rut_char))

-- The sizes of `cbuf`, `pbuf` and `cmdbuf`
abbrev pub cbuf_size : ℕ
cbuf_size = 256

abbrev pub pbuf_size : ℕ
pbuf_size = 50

abbrev pub cmdbuf_size : ℕ
cmdbuf_size = 20

-- `cp`, `pp` and `cmds` as positions in their buffers
pub record Buffers : Type 0 where
  pub cp : ℕ
  pub pp : ℕ
  pub cmds : ℕ

-- `init`
abbrev pub fresh_buffers : Buffers
fresh_buffers = record { cp = 0; pp = 0; cmds = 0 }

-- `Command`, without `rstderr`, which stays NULL. The commands of `pgm` are in the order of its list,
-- the last of the line first.
pub record Command : Type 0 where
  pub pgm : List (List Text)
  pub rstdin : Option Text
  pub rstdout : Option Text
  pub background : Bool

-- What `nexttoken` returns and leaves: the count of characters read, 0 at the end of the line, the token
-- at `*tok`, the line behind it, and `cp`.
pub record Lexed : Type 0 where
  pub count : ℕ
  pub token : Text
  pub rest : Text
  pub cp : ℕ

unfoldable pub skip : Text → Text
skip [] = []
skip (c ∷ s) = if isspace c then skip s else c ∷ s

abbrev pub ends_word : ℕ → Bool
ends_word c = isspace c || isspec c

unfoldable pub word_front : Text → Text
word_front [] = []
word_front (c ∷ s) = if ends_word c then [] else c ∷ word_front s

unfoldable pub word_rest : Text → Text
word_rest [] = []
word_rest (c ∷ s) = if ends_word c then c ∷ s else word_rest s

-- A token and the zero behind it are put into `cbuf`.
abbrev pub store_token : ℕ → Text → Text → Text → Result Lexed
store_token cp s token rest =
    if leb (cp + length token + 1) cbuf_size
    then ok (record {
      count = length s - length rest;
      token = token;
      rest = rest;
      cp = cp + length token + 1;
    })
    else fault

-- The token of a line that does not begin with a space. `old` is the string that earlier lines have left
-- at `cp`.
unfoldable pub lex : ℕ → Text → Text → Text → Result Lexed
lex cp old s [] = ok (record { count = 0; token = old; rest = s; cp = cp })
lex cp old s (c ∷ r) =
    if isspec c
    then store_token cp s (c ∷ []) r
    else store_token cp s (c ∷ word_front r) (word_rest r)

-- `old` gives for each position of `cbuf` the string that earlier lines have left there.
unfoldable pub nexttoken : (ℕ → Text) → ℕ → Text → Result Lexed
nexttoken old cp s = lex cp (old cp) s (skip s)

abbrev pub first_is_spec : Text → Bool
first_is_spec [] = false
first_is_spec (c ∷ _) = isspec c

-- What `acmd` returns and leaves: the count of characters read, the words of the command, the line
-- behind it, and the buffers.
pub record Parsed : Type 0 where
  pub count : ℕ
  pub words : List Text
  pub rest : Text
  pub buffers : Buffers

-- `acmd` from its label `next` on, after `cnt` characters
unfoldable pub acmd_loop : ℕ → (ℕ → Text) → Buffers → Text → ℕ → Result Parsed
acmd_loop zero old b s cnt = panic
acmd_loop (suc fuel) old b s cnt = nexttoken old b.cp s >>= λ x.
    let b1 = record b { cp = x.cp; pp = b.pp + 1 } in
    let more = acmd_loop fuel old b1 x.rest (cnt + x.count) in
    if not (ltb b.pp pbuf_size)
    then fault
    else if x.count == 0 || first_is_spec x.token
    then ok (record { count = cnt; words = []; rest = s; buffers = b1 })
    else (more >>= λ r. ok (record r { words = x.token ∷ r.words }))

unfoldable pub acmd : (ℕ → Text) → Buffers → Text → Result Parsed
acmd old b s =
    if b.cmds == cmdbuf_size
    then fault
    else acmd_loop (length s + 1) old (record b { cmds = b.cmds + 1 }) s 0

unfoldable pub is_idchar : ℕ → Bool
is_idchar c =
    isalnum c
    || (c == 95 || (c == 45 || (c == 46 || (c == 44 || (c == 47 || (c == 126 || c == 43))))))

unfoldable pub isidentifier : Text → Bool
isidentifier [] = true
isidentifier (c ∷ s) = is_idchar c && isidentifier s

-- The labels of `parse`
pub data Label : Type 0 where
  newcmd newtoken : Label

-- The cases of the `switch`, by the first character of the token
pub data Kind : Type 0 where
  pipe bg rin rut other : Kind

unfoldable pub kind_of : Text → Kind
kind_of [] = other
kind_of (c ∷ _) =
    if c == pipe_char
    then pipe
    else if c == bg_char
    then bg
    else if c == rin_char
    then rin
    else if c == rut_char
    then rut
    else other

abbrev pub is_some : Option Text → Bool
is_some none = false
is_some (some _) = true

-- `parse` from a label on; true is the result 1, false the result -1. The command is what is in `*c`.
unfoldable pub parse_from :
    ℕ → Label → (ℕ → Text) → Buffers → Text → Command → Result (Bool × Command)
parse_from zero label old b t c = panic
parse_from (suc fuel) newcmd old b t c = acmd old b t >>= λ r.
    let more = parse_from fuel newtoken old r.buffers r.rest (record c { pgm = r.words ∷ c.pgm }) in
    if r.count == 0 then ok (false, c) else more
parse_from (suc fuel) newtoken old b t c = nexttoken old b.cp t >>= λ x.
    let b1 = record b { cp = x.cp } in
    if x.count == 0 then ok (true, c) else elim (kind_of x.token) [
      | pipe ↦ parse_from fuel newcmd old b1 x.rest c
      | bg ↦ nexttoken old b1.cp x.rest >>= λ y.
          if y.count == 0 then ok (true, record c { background = true }) else ok (false, c)
      | rin ↦
          let redirected = nexttoken old b1.cp x.rest >>= λ y.
          let c1 = record c { rstdin = some y.token } in
          let more = parse_from fuel newtoken old (record b { cp = y.cp }) y.rest c1 in
          if isidentifier y.token then more else ok (false, c1) in
          if is_some c.rstdin then ok (false, c) else redirected
      | rut ↦
          let redirected = nexttoken old b1.cp x.rest >>= λ y.
          let c1 = record c { rstdout = some y.token } in
          let more = parse_from fuel newtoken old (record b { cp = y.cp }) y.rest c1 in
          if isidentifier y.token then more else ok (false, c1) in
          if is_some c.rstdout then ok (false, c) else redirected
      | other ↦ ok (false, c)
    ]

abbrev pub no_command : Command
no_command = record { pgm = []; rstdin = none; rstdout = none; background = false }

unfoldable pub parse : (ℕ → Text) → Text → Result (Bool × Command)
parse old buf = parse_from (length buf + 1) newcmd old fresh_buffers buf no_command
