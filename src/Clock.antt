-- ===== src/Clock.antt =====
-- Go's `time.Time` as the program uses it: `time.Unix`, `Unix`, `IsZero`, `After`. An instant is
-- the `int64` number of seconds since the start of the year 1, kept as its bit pattern, and the
-- nanoseconds in that second. The zero `Time` is the start of the year 1.
use cosmos_pay.Prelude.{ℕ, ◌+◌, ◌<◌, ◌≤◌, ◌≡◌, Bool, true, ◌&&◌, ◌||◌, arith, ltb, eqb}
use cosmos_pay.Prelude.Words.{half_word, add64, sub64, signed_ltb}

pub record Time : Type 0 where
  pub sec : ℕ
  pub nsec : ℕ

-- seconds from the year 1 to 1970
abbrev pub unix_to_internal : ℕ
unix_to_internal = 62135596800

-- time.Time{}
abbrev pub zero_time : Time
zero_time = record { sec = 0; nsec = 0 }

-- time.Unix(s, 0)
abbrev pub unix_time : ℕ → Time
unix_time s = record { sec = add64 s unix_to_internal; nsec = 0 }

-- t.Unix(), also as `uint64`: the conversion keeps the pattern
abbrev pub unix : Time → ℕ
unix t = sub64 t.sec unix_to_internal

abbrev pub is_zero : Time → Bool
is_zero t = eqb t.sec 0 && eqb t.nsec 0

-- t.After(u)
abbrev pub after : Time → Time → Bool
after t u = signed_ltb u.sec t.sec || (eqb t.sec u.sec && ltb u.nsec t.nsec)

-- The instants of the years that a clock shows: after 1970, and not past the range of `int64`.
pub record IsModern (t : Time) : Type 0 where
  pub epoch : unix_to_internal ≤ t.sec
  pub in_range : t.sec < half_word

-- A clock that shows a later instant than `time.Unix(s, 0)` shows at least `s` seconds, unless the
-- seconds do not fit the range of instants.
pub le-unix_of_after :
    (t : Time) (s : ℕ)
    → IsModern t
    → s + unix_to_internal < half_word
    → after t (unix_time s) ≡ true
    → s ≤ unix t
le-unix_of_after t s m fits h = ground arith
