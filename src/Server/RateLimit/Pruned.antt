-- ===== src/Server/RateLimit/Pruned.antt =====
-- internal/server/ratelimit.go: a limiter that is pruned before every request answers all of them as
-- one that is never pruned.
use text.Mathlib.Text.{◌==◌}
use kvp.Prelude.{
  ℕ, ◌*◌, ◌≤◌, String, ◌≡◌, refl, sym, ◌∙◌, ap, Bool, true, false, List, [], ◌∷◌, arith, eq_iff,
  inl, inr, Bool-cases, if◌then◌else◌,
}
use mathlib.Core.Path.{subst}
use kvp.Prelude.Int.{pos, pos_part, ltb_ℤ, ◌-ℤ◌}
use kvp.Server.RateLimit.{
  RateLimiter, second, hour, token_unit, full, allow, decide, prune, retry_after, ceil_div,
}
use kvp.Server.RateLimit.Levels.{
  IsLimiter, IsLimiter-later, level, allow_eq, allow-IsLimiter, level-allow_later,
  level-allow_other, rates_same, left,
}
use kvp.Server.RateLimit.Retry.{prune-IsLimiter, level-prune}

-- A request of a client, with the time at which the limiter is pruned before it and its own.
pub record Asked : Type 0 where
  pub key : String
  pub prune_at : ℕ
  pub allow_at : ℕ

-- What the client is told.
abbrev pub told : Bool × ℕ × RateLimiter → Bool × ℕ
told a = (a.0, a.1)

-- The answers and the seconds of Retry-After, without pruning and with it.
unfoldable pub answers : List Asked → RateLimiter → List (Bool × ℕ)
answers [] rl = []
answers (q ∷ qs) rl = let a = allow q.key q.allow_at rl in told a ∷ answers qs a.2

unfoldable pub pruned_answers : List Asked → RateLimiter → List (Bool × ℕ)
pruned_answers [] rl = []
pruned_answers (q ∷ qs) rl =
    let a = allow q.key q.allow_at (prune q.prune_at rl) in told a ∷ pruned_answers qs a.2

abbrev pub InOrder : ℕ → List Asked → Type 0
InOrder since [] = Unit
InOrder since (q ∷ qs) = (since ≤ q.prune_at) × ((q.prune_at ≤ q.allow_at) × InOrder q.allow_at qs)

-- Two limiters with the same rates, which hold the same for each client from `t` on.
record Alike (t : ℕ) (a b : RateLimiter) : Type 0 where
  num : a.rps_num ≡ b.rps_num
  unit : token_unit a ≡ token_unit b
  cap : full a ≡ full b
  left_sound : IsLimiter t a
  right_sound : IsLimiter t b
  levels : (key : String) (later : ℕ) → t ≤ later → level a key later ≡ level b key later

Alike-refl : (t : ℕ) (a : RateLimiter) → IsLimiter t a → Alike t a a
Alike-refl t a v = record {
  num = refl;
  unit = refl;
  cap = refl;
  left_sound = v;
  right_sound = v;
  levels = λ key later h. refl;
}

prune-Alike :
    (t now : ℕ) (a b : RateLimiter)
    → t ≤ now
    → full a ≤ a.rps_num * hour
    → Alike t a b
    → Alike now (prune now a) b
prune-Alike t now a b h enough k =
    let v = IsLimiter-later a t now h k.left_sound in
    record {
      num = unfold prune in k.num;
      unit = unfold prune in k.unit;
      cap = unfold prune in k.cap;
      left_sound = prune-IsLimiter now a v;
      right_sound = IsLimiter-later b t now h k.right_sound;
      levels = λ key later at.
          level-prune now a v key later at enough ∙ k.levels key later (omega (arith, h, at));
    }

Alike-later : (t now : ℕ) (a b : RateLimiter) → t ≤ now → Alike t a b → Alike now a b
Alike-later t now a b h k = record {
  num = k.num;
  unit = k.unit;
  cap = k.cap;
  left_sound = IsLimiter-later a t now h k.left_sound;
  right_sound = IsLimiter-later b t now h k.right_sound;
  levels = λ key later at. k.levels key later (omega (arith, h, at));
}

-- The answer and the seconds of Retry-After, by the size of a token, the rate and the level.
abbrev answer_of : ℕ → ℕ → ℕ → Bool × ℕ
answer_of unit num n =
    if ltb_ℤ (pos n) (pos unit)
    then (false, ceil_div (pos_part (pos unit -ℤ pos n)) (num * second))
    else (true, 0)

answer_of-same :
    (u u' r r' n n' : ℕ) → u ≡ u' → r ≡ r' → n ≡ n' → answer_of u r n ≡ answer_of u' r' n'
answer_of-same u u' r r' n n' hu hr hn = rw (hu, hr, hn) refl

decide_answer :
    (key : String) (now n : ℕ) (a : RateLimiter)
    → told (decide key now (pos n) a) ≡ answer_of (token_unit a) a.rps_num n
unfolding retry_after
decide_answer key now n a = elim (Bool-cases (ltb_ℤ (pos n) (pos (token_unit a)))) [
  | inl few ↦ rw few refl
  | inr enough ↦ rw enough refl
]

module _ (now : ℕ) (key : String) (a b : RateLimiter) (k : Alike now a b) where
  same_answer : told (allow key now a) ≡ told (allow key now b)
  same_answer =
      rw (allow_eq key now a k.left_sound, allow_eq key now b k.right_sound)
        (decide_answer key now (level a key now) a
          ∙ answer_of-same _ _ _ _ _ _ k.unit k.num (k.levels key now (omega arith))
          ∙ sym (decide_answer key now (level b key now) b))

  same_left : left key now a k.left_sound ≡ left key now b k.right_sound
  same_left = rw (k.unit, k.levels key now (omega arith)) refl

  allow-Alike : Alike now (allow key now a).2 (allow key now b).2
  allow-Alike =
      let ra = rates_same key now a k.left_sound in
      let rb = rates_same key now b k.right_sound in
      record {
        num = ra.0 ∙ k.num ∙ sym rb.0;
        unit = ra.1 ∙ k.unit ∙ sym rb.1;
        cap = ra.2 ∙ k.cap ∙ sym rb.2;
        left_sound = allow-IsLimiter key now a k.left_sound;
        right_sound = allow-IsLimiter key now b k.right_sound;
        levels = λ j later h. elim (Bool-cases (key == j)) [
          | inl here ↦
              subst (λ i. level (allow key now a).2 i later ≡ level (allow key now b).2 i later)
                ((eq_iff key j).0 here)
                (level-allow_later key now later a k.left_sound
                  ∙ rw (k.cap, same_left, k.num) refl
                  ∙ sym (level-allow_later key now later b k.right_sound))
          | inr other ↦
              level-allow_other key now a k.left_sound j later other
              ∙ k.levels j later h
              ∙ sym (level-allow_other key now b k.right_sound j later other)
        ];
      }

Alike-answers :
    (since : ℕ) (qs : List Asked) (a b : RateLimiter)
    → InOrder since qs
    → full a ≤ a.rps_num * hour
    → Alike since a b
    → pruned_answers qs a ≡ answers qs b
unfolding pruned_answers answers
Alike-answers since [] a b h enough k = refl
Alike-answers since (q ∷ qs) a b h enough k =
    let p = prune q.prune_at a in
    let later = prune-Alike since q.prune_at a b h.0 enough k in
    let asked = Alike-later q.prune_at q.allow_at p b h.1.0 later in
    let room : full (allow q.key q.allow_at p).2 ≤ (allow q.key q.allow_at p).2.rps_num * hour =
      let r = rates_same q.key q.allow_at p asked.left_sound in
      rw (r.2, r.0) (unfold prune in enough) in
    let rest =
      Alike-answers q.allow_at qs (allow q.key q.allow_at p).2 (allow q.key q.allow_at b).2 h.1.1
        room (allow-Alike q.allow_at q.key p b asked) in
    ap (λ x. x ∷ pruned_answers qs (allow q.key q.allow_at p).2)
      (same_answer q.allow_at q.key p b asked)
    ∙ ap (λ xs. told (allow q.key q.allow_at b) ∷ xs) rest

-- Where the rate fills a bucket within an hour, no client notices that the limiter is pruned: in any
-- history of requests at times in order, with a pruning before each, every request gets the answer,
-- and the Retry-After, that it gets from the same limiter without any pruning.
pub pruned_answers_lem :
    (since : ℕ) (qs : List Asked) (rl : RateLimiter)
    → IsLimiter since rl
    → InOrder since qs
    → full rl ≤ rl.rps_num * hour
    → pruned_answers qs rl ≡ answers qs rl
pruned_answers_lem since qs rl v h enough =
    Alike-answers since qs rl rl h enough (Alike-refl since rl v)
