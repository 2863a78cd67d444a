-- ===== src/Server/RateLimit/Levels.antt =====
-- internal/server/ratelimit.go: how full a client's bucket is at a time, which is what `allow` goes by.
use text.Mathlib.Text.{◌==◌}
use text.Mathlib.TextPositions.{eq_refl}
use mathlib.Core.Path.{subst}
use native.Mathlib.Nat.{mul-add}
use kvp.Prelude.{
  false, ℕ, ◌+◌, ◌-◌, ◌*◌, ◌≤◌, String, ◌≡◌, refl, sym, ◌∙◌, some_inj, Option, none, some, arith,
  inl, inr, ◌≢◌, Bool-cases, if◌then◌else◌, ltb, leb,
}
use kvp.Prelude.Int.{pos, pos_part, neg_part, ◌+ℤ◌, ◌-ℤ◌}
use kvp.Assoc.{lookup, IsMap, lookup-insert, insert-IsMap}
use kvp.Server.RateLimit.{
  new_rate_limiter, Bucket, RateLimiter, token_unit, full, bucket_of, gained, refill, decide, allow,
  set_bucket,
}

-- A bucket that the limiter has made by the time `t`, with the clock's readings in order.
pub record IsBucket (rl : RateLimiter) (t : ℕ) (b : Bucket) : Type 0 where
  pub no_debt : neg_part b.tokens ≡ 0
  pub capped : pos_part b.tokens ≤ full rl
  pub in_past : b.last ≤ t

-- Every bucket is one of that kind, and each client has at most one.
pub record IsLimiter (t : ℕ) (rl : RateLimiter) : Type 0 where
  pub map : IsMap rl.buckets
  pub sound : (key : String) (b : Bucket) → lookup key rl.buckets ≡ some b → IsBucket rl t b

abbrev pub min_ℕ : ℕ → ℕ → ℕ
min_ℕ a b = if ltb a b then a else b

-- The parts in a bucket at the time `now`.
abbrev pub level_in : RateLimiter → ℕ → Option Bucket → ℕ
level_in rl now none = full rl
level_in rl now (some b) = min_ℕ (full rl) (pos_part b.tokens + rl.rps_num * (now - b.last))

unfoldable pub level : RateLimiter → String → ℕ → ℕ
level rl key now = level_in rl now (lookup key rl.buckets)

-- Between two readings in order a bucket loses nothing.
lost_none : (n a b : ℕ) → a ≤ b → n * (a - b) ≡ 0
lost_none n a b h = let e : a - b ≡ 0 = omega arith in rw e (omega arith)

module _ (rl : RateLimiter) (now : ℕ) where
  refill-level_in :
      (o : Option Bucket)
      → ((b : Bucket) → o ≡ some b → IsBucket rl now b)
      → refill rl now (bucket_of rl now o) ≡ pos (level_in rl now o)
  unfolding refill gained ◌+ℤ◌
  refill-level_in none v = ground (arith, lost_none rl.rps_num now now (omega arith))
  refill-level_in (some b) v =
      let k = v b refl in ground (arith, lost_none rl.rps_num b.last now k.in_past, k.no_debt)

-- Over a time the level rises by what the rate gives in it.
pub scale_split : (n a b c : ℕ) → a ≤ b → b ≤ c → n * (c - a) ≡ n * (c - b) + n * (b - a)
scale_split n a b c h k =
    let e : c - a ≡ (c - b) + (b - a) = omega arith in rw e (mul-add n (c - b) (b - a))

level_in-later :
    (rl : RateLimiter) (t now : ℕ) (o : Option Bucket)
    → ((b : Bucket) → o ≡ some b → IsBucket rl t b)
    → t ≤ now
    → (level_in rl now o ≤ level_in rl t o + rl.rps_num * (now - t))
      × (level_in rl t o ≤ level_in rl now o)
level_in-later rl t now none v h = (omega arith, omega arith)
level_in-later rl t now (some b) v h = (
  ground (arith, scale_split rl.rps_num b.last t now (v b refl).in_past h),
  ground (arith, scale_split rl.rps_num b.last t now (v b refl).in_past h),
)

level_in_cap : (rl : RateLimiter) (now : ℕ) (o : Option Bucket) → level_in rl now o ≤ full rl
level_in_cap rl now none = omega arith
level_in_cap rl now (some b) = ground arith

-- A bucket that has just been set holds what it was set to.
level_in_set :
    (rl : RateLimiter) (now n : ℕ)
    → n ≤ full rl
    → level_in rl now (some (record { tokens = pos n; last = now })) ≡ n
level_in_set rl now n h = ground (arith, lost_none rl.rps_num now now (omega arith))

-- What is left of a level once `allow` has answered.
abbrev pub spent : ℕ → ℕ → ℕ
spent unit n = if leb unit n then n - unit else n

-- `allow` admits exactly when the level holds a token; then it takes the token, and the client's
-- bucket holds the rest.
decide_lem :
    (key : String) (now n : ℕ) (rl : RateLimiter)
    → ((decide key now (pos n) rl).0 ≡ leb (token_unit rl) n)
      × ((decide key now (pos n) rl).2 ≡ set_bucket key (pos (spent (token_unit rl) n)) now rl)
unfolding ◌-ℤ◌
decide_lem key now n rl = elim (Bool-cases (leb (token_unit rl) n)) [
  | inl has ↦ (ground arith, ground arith)
  | inr less ↦ (ground arith, ground arith)
]

module _ (key : String) (now : ℕ) (rl : RateLimiter) (v : IsLimiter now rl) where
  pub allow_eq : allow key now rl ≡ decide key now (pos (level rl key now)) rl
  unfolding allow level
  allow_eq = rw (refill-level_in rl now (lookup key rl.buckets) (v.sound key))

  pub allow_admits : (allow key now rl).0 ≡ leb (token_unit rl) (level rl key now)
  allow_admits = rw allow_eq (decide_lem key now _ rl).0

  -- What the bucket of the client holds after the answer.
  abbrev pub left : ℕ
  left = spent (token_unit rl) (level rl key now)

  limiter_after : (allow key now rl).2 ≡ set_bucket key (pos left) now rl
  limiter_after = rw allow_eq (decide_lem key now _ rl).1

  left_cap : left ≤ full rl
  unfolding level
  left_cap = ground (arith, level_in_cap rl now (lookup key rl.buckets))

  pub allow-IsLimiter : IsLimiter now (allow key now rl).2
  allow-IsLimiter = rw limiter_after (record {
    map = insert-IsMap key _ rl.buckets v.map;
    sound = λ j b h. elim (Bool-cases (key == j)) [
      | inl same ↦
          let set : Bucket = record { tokens = pos left; last = now } in
          let e : some set ≡ some b = sym (lookup-insert key j set rl.buckets ∙ rw same) ∙ h in
          subst (IsBucket (set_bucket key (pos left) now rl) now) (some_inj e)
            (record { no_debt = refl; capped = left_cap; in_past = omega arith })
      | inr other ↦
          let k = v.sound j b (sym (lookup-insert key j _ rl.buckets ∙ rw other) ∙ h) in
          record { no_debt = k.no_debt; capped = k.capped; in_past = k.in_past }
    ];
  })

  -- The other clients' buckets are as they were.
  pub level-allow :
      (j : String) → level (allow key now rl).2 j now ≡ (if key == j then left else level rl j now)
  unfolding level
  level-allow j =
      rw (limiter_after, lookup-insert)
        (elim (Bool-cases (key == j)) [
          | inl same ↦ rw same (level_in_set rl now left left_cap)
          | inr other ↦ rw other
        ])

  pub level-allow_other :
      (j : String) (later : ℕ)
      → (key == j) ≡ false
      → level (allow key now rl).2 j later ≡ level rl j later
  unfolding level
  level-allow_other j later other = rw (limiter_after, lookup-insert, other) refl

  pub rates_same :
      ((allow key now rl).2.rps_num ≡ rl.rps_num)
      × (token_unit (allow key now rl).2 ≡ token_unit rl)
      × (full (allow key now rl).2 ≡ full rl)
  rates_same = rw limiter_after (refl, refl, refl)

pub IsLimiter-later : (rl : RateLimiter) (t now : ℕ) → t ≤ now → IsLimiter t rl → IsLimiter now rl
IsLimiter-later rl t now h v = record {
  map = v.map;
  sound = λ j b at.
      let k = v.sound j b at in
      record { no_debt = k.no_debt; capped = k.capped; in_past = omega (arith, k.in_past, h) };
}

pub level-later :
    (rl : RateLimiter) (key : String) (t now : ℕ)
    → IsLimiter t rl
    → t ≤ now
    → (level rl key now ≤ level rl key t + rl.rps_num * (now - t))
      × (level rl key t ≤ level rl key now)
unfolding level
level-later rl key t now v h = level_in-later rl t now (lookup key rl.buckets) (v.sound key) h

pub level-cap : (rl : RateLimiter) (key : String) (now : ℕ) → level rl key now ≤ full rl
unfolding level
level-cap rl key now = level_in_cap rl now (lookup key rl.buckets)

pub new-IsLimiter : (t num den burst : ℕ) → IsLimiter t (new_rate_limiter num den burst)
unfolding new_rate_limiter lookup
new-IsLimiter t num den burst = record { map = tt; sound = λ key b h. absurd (none-≢-some b h) }
  where
    none-≢-some : (b : Bucket) → none ≢ some b
    none-≢-some b h = cc h

-- The level of the client that was answered, at a later time.
pub level-allow_later :
    (key : String) (now later : ℕ) (rl : RateLimiter) (v : IsLimiter now rl)
    → level (allow key now rl).2 key later
      ≡ min_ℕ (full rl) (left key now rl v + rl.rps_num * (later - now))
unfolding level
level-allow_later key now later rl v = rw (limiter_after key now rl v, lookup-insert, eq_refl)
