-- ===== src/Parse/Bounds.antt =====
-- Short lines fit into the buffers, and the parser returns on them.
use eda.Prelude.{
  ℕ, zero, suc, ◌+◌, ◌*◌, ◌<◌, ◌≤◌, ◌≡◌, ◌≢◌, ◌⊎◌, refl, ◌||◌, Bool, true, false, ◌==◌, ==-ne,
  ==_iff, [], ◌∷◌, arith, ltb, Bool-cases, inl, inr, if◌then◌else◌, length, Result, ok, some,
}
use eda.Parse.{
  Text, Buffers, fresh_buffers, Command, no_command, Lexed, first_is_spec, Parsed, acmd_loop, acmd,
  Label, newcmd, newtoken, Kind, pipe, bg, rin, rut, other, kind_of, is_some, isidentifier,
  parse_from, parse, pbuf_size, cmdbuf_size,
}
use eda.Parse.Lexer.{Lexes, nexttoken-Lexes}

-- What `acmd` has done from `b` and `s` on, after `cnt` characters.
pub record Takes (b : Buffers) (s : Text) (cnt : ℕ) (r : Parsed) : Type 0 where
  pub bytes : r.buffers.cp + 2 * length r.rest ≤ b.cp + 2 * length s + 2
  pub slots : r.buffers.pp + length r.rest ≤ b.pp + length s + 1
  pub same_cmds : r.buffers.cmds ≡ b.cmds
  pub counts : cnt ≤ r.count
  pub shorter : r.count ≢ cnt → length r.rest < length s
  pub shrinks : length r.rest ≤ length s

pub acmd_loop-Takes :
    (fuel : ℕ) (old : ℕ → Text) (b : Buffers) (s : Text) (cnt : ℕ)
    → length s < fuel
    → b.cp + 2 * length s ≤ 256
    → b.pp + length s < 50
    → (r : Parsed) × (acmd_loop fuel old b s cnt ≡ ok r) × Takes b s cnt r
unfolding acmd_loop
acmd_loop-Takes zero old b s cnt lt bytes slots = absurd (omega arith)
acmd_loop-Takes (suc fuel) old b s cnt lt bytes slots =
    let (x, run, l) = nexttoken-Lexes old b.cp s bytes in
    let free : ltb b.pp pbuf_size ≡ true = ground arith in
    elim (Bool-cases (x.count == 0 || first_is_spec x.token)) [
      | inl e ↦ (
        record {
          count = cnt;
          words = [];
          rest = s;
          buffers = record b { cp = x.cp; pp = b.pp + 1 };
        },
        rw (run, free, e) refl,
        record {
          bytes = omega (arith, stored l e);
          slots = omega arith;
          same_cmds = refl;
          counts = omega arith;
          shorter = λ ne. absurd (ne refl);
          shrinks = omega arith;
        },
      )
      | inr e ↦
          let pos : x.count ≢ 0 = λ z. absurd (ground arith) in
          let (r, more, t) =
            acmd_loop-Takes fuel old (record b { cp = x.cp; pp = b.pp + 1 }) x.rest (cnt + x.count)
              (omega (arith, l.shorter pos)) (omega (arith, l.bounded))
              (omega (arith, l.shorter pos)) in
          (
            record r { words = x.token ∷ r.words },
            rw (run, free, e) (rw more refl),
            record {
              bytes = omega (arith, t.bytes, l.bounded);
              slots = omega (arith, t.slots, l.shorter pos);
              same_cmds = t.same_cmds;
              counts = omega (arith, t.counts);
              shorter = λ ne. omega (arith, t.shrinks, l.shorter pos);
              shrinks = omega (arith, t.shrinks, l.shrinks);
            },
          )
    ]
  where
    stored :
        {x : Lexed}
        → Lexes b.cp s x
        → (x.count == 0 || first_is_spec x.token) ≡ true
        → x.cp ≤ b.cp + 2
    stored {x} l e = elim (Bool-cases (x.count == 0)) [
      | inl z ↦ omega (arith, l.ended ((==_iff x.count 0).0 z))
      | inr z ↦ l.special (ground arith)
    ]

abbrev pub extra : Label → ℕ
extra newcmd = 1
extra newtoken = 0

-- The buffers hold what the line `t` can need.
pub record Room (label : Label) (b : Buffers) (t : Text) : Type 0 where
  pub bytes : b.cp + 4 * length t ≤ 256
  pub slots : b.pp + length t + extra label ≤ 50
  pub cmds : 2 * b.cmds + length t + extra label ≤ 40

abbrev Returns : Result (Bool × Command) → Type 0
Returns r = (a : Bool × Command) × (r ≡ ok a)

newcmd-Room :
    {b : Buffers} {t : Text} {r : Parsed}
    → Room newcmd b t
    → Takes (record b { cmds = b.cmds + 1 }) t 0 r
    → r.count ≢ 0
    → Room newtoken r.buffers r.rest
newcmd-Room m k ne = record {
  bytes = omega (arith, m.bytes, k.bytes, k.shorter ne);
  slots = omega (arith, m.slots, k.slots);
  cmds = omega (arith, m.cmds, k.same_cmds, k.shorter ne);
}

-- After a token has been read, one more may be.
newtoken-Room :
    {b : Buffers} {t : Text} (label : Label) {x : Lexed}
    → Room newtoken b t
    → Lexes b.cp t x
    → x.count ≢ 0
    → Room label (record b { cp = x.cp }) x.rest
newtoken-Room newcmd m l ne = record {
  bytes = omega (arith, m.bytes, l.bounded, l.shorter ne);
  slots = omega (arith, m.slots, l.shorter ne);
  cmds = omega (arith, m.cmds, l.shorter ne);
}
newtoken-Room newtoken m l ne = record {
  bytes = omega (arith, m.bytes, l.bounded, l.shorter ne);
  slots = omega (arith, m.slots, l.shorter ne);
  cmds = omega (arith, m.cmds, l.shorter ne);
}

name-Room :
    {b : Buffers} {t : Text} {x : Lexed}
    → Room newtoken b t
    → Lexes b.cp t x
    → Room newtoken (record b { cp = x.cp }) x.rest
name-Room m l = record {
  bytes = omega (arith, m.bytes, l.bounded, l.shrinks);
  slots = omega (arith, m.slots, l.shrinks);
  cmds = omega (arith, m.cmds, l.shrinks);
}

if_Returns :
    (b : Bool) {p q : Result (Bool × Command)}
    → Returns p
    → Returns q
    → Returns (if b then p else q)
if_Returns true p q = p
if_Returns false p q = q

Kind-cases : (k : Kind) → (k ≡ pipe) ⊎ ((k ≡ bg) ⊎ ((k ≡ rin) ⊎ ((k ≡ rut) ⊎ (k ≡ other))))
Kind-cases pipe = inl refl
Kind-cases bg = inr (inl refl)
Kind-cases rin = inr (inr (inl refl))
Kind-cases rut = inr (inr (inr (inl refl)))
Kind-cases other = inr (inr (inr (inr refl)))

parse_from-Returns :
    (fuel : ℕ) (label : Label) (old : ℕ → Text) (b : Buffers) (t : Text) (c : Command)
    → length t < fuel
    → Room label b t
    → Returns (parse_from fuel label old b t c)
unfolding parse_from acmd
parse_from-Returns zero label old b t c lt m = absurd (omega arith)
parse_from-Returns (suc fuel) newcmd old b t c lt m =
    let (r, run, k) =
      acmd_loop-Takes (length t + 1) old (record b { cmds = b.cmds + 1 }) t 0 (omega arith)
        (omega (arith, m.bytes)) (omega (arith, m.slots)) in
    let few : (b.cmds == cmdbuf_size) ≡ false =
      ==-ne b.cmds cmdbuf_size (λ e. omega (arith, m.cmds, e)) in
    rw (few, run)
      (elim (Bool-cases (r.count == 0)) [
        | inl e ↦ rw e ((false, c), refl)
        | inr e ↦
            let ne : r.count ≢ 0 = λ z. absurd (ground arith) in
            rw e (
              parse_from-Returns fuel newtoken old r.buffers r.rest
                (record c { pgm = r.words ∷ c.pgm }) (omega (arith, k.shorter ne))
                (newcmd-Room m k ne))
      ])
parse_from-Returns (suc fuel) newtoken old b t c lt m =
    let (x, run, l) = nexttoken-Lexes old b.cp t (omega (arith, m.bytes)) in
    rw run (elim (Bool-cases (x.count == 0)) [
      | inl e ↦ rw e ((true, c), refl)
      | inr e ↦
          let ne : x.count ≢ 0 = λ z. absurd (ground arith) in
          rw e (
            let m1 = newtoken-Room newtoken m l ne in
            let (y, run2, l2) = nexttoken-Lexes old x.cp x.rest (omega (arith, m1.bytes)) in
            let m2 = name-Room m1 l2 in
            let shorter : length y.rest < fuel = omega (arith, l.shorter ne, l2.shrinks) in
            elim (Kind-cases (kind_of x.token)) [
              | inl k ↦ rw k (
                  parse_from-Returns fuel newcmd old (record b { cp = x.cp }) x.rest c
                    (omega (arith, l.shorter ne)) (newtoken-Room newcmd m l ne))
              | inr (inl k) ↦ rw (k, run2) (if_Returns (y.count == 0) (_, refl) (_, refl))
              | inr (inr (inl k)) ↦
                  rw (k, run2)
                    (if_Returns (is_some c.rstdin) (_, refl)
                      (if_Returns (isidentifier y.token)
                        (parse_from-Returns fuel newtoken old (record b { cp = y.cp }) y.rest
                          (record c { rstdin = some y.token }) shorter m2)
                        (_, refl)))
              | inr (inr (inr (inl k))) ↦
                  rw (k, run2)
                    (if_Returns (is_some c.rstdout) (_, refl)
                      (if_Returns (isidentifier y.token)
                        (parse_from-Returns fuel newtoken old (record b { cp = y.cp }) y.rest
                          (record c { rstdout = some y.token }) shorter m2)
                        (_, refl)))
              | inr (inr (inr (inr k))) ↦ rw k (_, refl)
            ])
    ])

-- A line of at most 39 characters fits into the buffers, whatever they held: `parse` returns on it.
pub parse-Returns :
    (old : ℕ → Text) (buf : Text) → length buf ≤ 39 → (r : Bool × Command) × (parse old buf ≡ ok r)
unfolding parse
parse-Returns old buf le =
    parse_from-Returns (length buf + 1) newcmd old fresh_buffers buf no_command (omega arith)
      (record { bytes = omega (arith, le); slots = omega (arith, le); cmds = omega (arith, le) })
