-- ===== src/Server/RateLimit/Bound.antt =====
-- internal/server/ratelimit.go: how many requests of a client the limiter admits in a time, whatever
-- the other clients do in between.
use text.Mathlib.Text.{◌==◌}
use native.Mathlib.Nat.{mul-add}
use kvp.Prelude.{
  ℕ, ◌+◌, ◌-◌, ◌*◌, ◌≤◌, String, ◌≡◌, Bool, true, false, ◌&&◌, List, [], ◌∷◌, arith, eq_iff, inl,
  inr, Bool-cases, leb, leb→le,
}
use kvp.Server.RateLimit.{RateLimiter, second, new_rate_limiter, token_unit, allow}
use kvp.Server.RateLimit.Levels.{
  IsLimiter, level, spent, allow_admits, allow-IsLimiter, level-allow, rates_same, level-later,
  level-cap, IsLimiter-later, new-IsLimiter, scale_split,
}

-- The requests with their times, in order: `since ≤ t₁ ≤ … ≤ until`.
abbrev pub InOrder : ℕ → List (String × ℕ) → ℕ → Type 0
InOrder since [] until = since ≤ until
InOrder since ((key, t) ∷ rest) until = (since ≤ t) × InOrder t rest until

abbrev pub count_if : Bool → ℕ → ℕ
count_if true n = n + 1
count_if false n = n

-- How many requests of a client a limiter admits out of a history.
unfoldable pub admitted : String → List (String × ℕ) → RateLimiter → ℕ
admitted key [] rl = 0
admitted key ((j, t) ∷ rest) rl =
    let (ok, wait, rl') = allow j t rl in count_if (ok && j == key) (admitted key rest rl')

end-after : (since until : ℕ) (reqs : List (String × ℕ)) → InOrder since reqs until → since ≤ until
end-after since until [] h = h
end-after since until ((j, t) ∷ rest) h = omega (arith, h.0, end-after t until rest h.1)

spend : (u l n : ℕ) → u * count_if (leb u l && true) n + spent u l ≡ u * n + l
spend u l n = elim (Bool-cases (leb u l)) [
  | inl has ↦ rw (has, mul-add u n 1) (omega (arith, leb→le u l has))
  | inr less ↦ rw less
]

-- What a request costs its client is taken from the client's bucket, and from no other.
paid :
    (key j : String) (t : ℕ) (rl : RateLimiter) (n : ℕ)
    → IsLimiter t rl
    → token_unit rl * count_if ((allow j t rl).0 && j == key) n + level (allow j t rl).2 key t
      ≡ token_unit rl * n + level rl key t
paid key j t rl n v = elim (Bool-cases (j == key)) [
  | inl same ↦
      rw (same, level-allow, same, allow_admits, (eq_iff j key).0 same)
        (spend (token_unit rl) (level rl key t) n)
  | inr other ↦ rw (level-allow, other) (ground arith)
]

-- From a limiter at the time `since`, the tokens that a client is given until the time `until` are
-- at most those in its bucket and those that the rate adds, whatever the other clients send.
admitted-level :
    (key : String) (reqs : List (String × ℕ)) (since until : ℕ) (rl : RateLimiter)
    → IsLimiter since rl
    → InOrder since reqs until
    → token_unit rl * admitted key reqs rl ≤ level rl key since + rl.rps_num * (until - since)
unfolding admitted
admitted-level key [] since until rl v h = omega arith
admitted-level key ((j, t) ∷ rest) since until rl v h =
    let now = IsLimiter-later rl since t h.0 v in
    let same = rates_same j t rl now in
    let rest' =
      rw (same.0, same.1) at
        (admitted-level key rest t until (allow j t rl).2 (allow-IsLimiter j t rl now) h.1) in
    omega (
      arith,
      paid key j t rl (admitted key rest (allow j t rl).2) now,
      rest',
      (level-later rl key since t v h.0).0,
      scale_split rl.rps_num since t until h.0 (end-after t until rest h.1),
    )

-- In any history whose times are in order a client is admitted at most `burst` times more than the
-- tokens that the rate adds from the first time to the last, whatever the others send.
pub admitted_bound :
    (key : String) (reqs : List (String × ℕ)) (since until num den burst : ℕ)
    → InOrder since reqs until
    → den * second * admitted key reqs (new_rate_limiter num den burst)
      ≤ burst * (den * second) + num * (until - since)
unfolding new_rate_limiter
admitted_bound key reqs since until num den burst h =
    let rl = new_rate_limiter num den burst in
    let v = new-IsLimiter since num den burst in
    omega (arith, admitted-level key reqs since until rl v h, level-cap rl key since)
