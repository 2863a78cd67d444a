-- ===== src/Server/RateLimit/Retry.antt =====
-- internal/server/ratelimit.go: what a denied client is told, and what pruning forgets.
use text.Mathlib.Text.{◌==◌}
use native.Mathlib.Nat.{mul-le-mul_left}
use kvp.Prelude.{
  ℕ, ◌-◌, ◌*◌, ◌≤◌, String, ◌≡◌, refl, sym, ◌∙◌, ap, Option, none, some, [], ◌∷◌, arith, eq_iff,
  inl, inr, Bool-cases, if◌then◌else◌,
}
use kvp.Assoc.{Assoc, lookup, IsMap}
use kvp.Server.RateLimit.{Bucket, RateLimiter, hour, full, is_idle, prune_buckets, prune}
use kvp.Server.RateLimit.Levels.{IsLimiter, level, level_in}

-- What pruning leaves of a client's bucket.
abbrev kept : ℕ → Option Bucket → Option Bucket
kept now none = none
kept now (some b) = if is_idle now b then none else some b

lookup-prune_buckets :
    (now : ℕ) (m : Assoc Bucket) (key : String)
    → IsMap m
    → lookup key (prune_buckets now m) ≡ kept now (lookup key m)
unfolding prune_buckets lookup
lookup-prune_buckets now [] key h = refl
lookup-prune_buckets now ((j, b) ∷ m) key h = elim (Bool-cases (is_idle now b)) [
  | inl idle ↦ elim (Bool-cases (j == key)) [
    | inl same ↦
        rw (idle, same, idle)
          (lookup-prune_buckets now m key h.1
            ∙ ap (kept now) (ap (λ k. lookup k m) (sym ((eq_iff j key).0 same)) ∙ h.0))
    | inr other ↦ rw (idle, other) (lookup-prune_buckets now m key h.1)
  ]
  | inr busy ↦ elim (Bool-cases (j == key)) [
    | inl same ↦ rw (busy, prune_buckets, same, busy)
    | inr other ↦ rw (busy, prune_buckets, other) (lookup-prune_buckets now m key h.1)
  ]
]

lookup-prune_absent :
    (now : ℕ) (m : Assoc Bucket) (key : String)
    → IsMap m
    → lookup key m ≡ none
    → lookup key (prune_buckets now m) ≡ none
lookup-prune_absent now m key h absent = lookup-prune_buckets now m key h ∙ ap (kept now) absent

prune_buckets-IsMap : (now : ℕ) (m : Assoc Bucket) → IsMap m → IsMap (prune_buckets now m)
unfolding prune_buckets
prune_buckets-IsMap now [] h = tt
prune_buckets-IsMap now ((j, b) ∷ m) h = elim (Bool-cases (is_idle now b)) [
  | inl idle ↦ rw idle (prune_buckets-IsMap now m h.1)
  | inr busy ↦
      rw (busy, prune_buckets) (lookup-prune_absent now m j h.1 h.0, prune_buckets-IsMap now m h.1)
]

kept-some : (now : ℕ) (o : Option Bucket) (b : Bucket) → kept now o ≡ some b → o ≡ some b
kept-some now none b h = h
kept-some now (some b') b h = ground arith

-- An idle bucket has filled up again, if an hour is enough for that.
level_in-kept :
    (rl : RateLimiter) (now t : ℕ) (o : Option Bucket)
    → now ≤ t
    → full rl ≤ rl.rps_num * hour
    → level_in rl t (kept now o) ≡ level_in rl t o
level_in-kept rl now t none h enough = refl
level_in-kept rl now t (some b) h enough = elim (Bool-cases (is_idle now b)) [
  | inr busy ↦ rw busy
  | inl idle ↦
      let long : hour ≤ t - b.last = ground arith in
      rw idle (ground (arith, mul-le-mul_left rl.rps_num long))
]

module _ (now : ℕ) (rl : RateLimiter) (v : IsLimiter now rl) where
  pub prune-IsLimiter : IsLimiter now (prune now rl)
  unfolding prune
  prune-IsLimiter = record {
    map = prune_buckets-IsMap now rl.buckets v.map;
    sound = λ key b h.
        let k =
          v.sound key b
            (kept-some now _ b (sym (lookup-prune_buckets now rl.buckets key v.map) ∙ h)) in
        record { no_debt = k.no_debt; capped = k.capped; in_past = k.in_past };
  }

  pub level-prune :
      (key : String) (t : ℕ)
      → now ≤ t
      → full rl ≤ rl.rps_num * hour
      → level (prune now rl) key t ≡ level rl key t
  unfolding level prune
  level-prune key t h enough =
      rw (lookup-prune_buckets now rl.buckets key v.map)
        (level_in-kept rl now t (lookup key rl.buckets) h enough)
