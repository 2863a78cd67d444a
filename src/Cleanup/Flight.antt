-- ===== src/Cleanup/Flight.antt =====
-- internal/cleanup/cleanup.go: any number of callers of `MaybeEvict` (the background loop and the
-- goroutines of the POST trigger), whose critical sections interleave in any order.
use kvp.Prelude.{
  ℕ, suc, ◌+◌, ◌≤◌, ◌≡◌, refl, ap, sym, ◌∙◌, Bool, true, false, Option, none, some, List, [], ◌∷◌,
  arith, inl, inr, Bool-cases,
}
use kvp.Cleanup.{Evictor, too_soon, enter, leave}

-- The evictor, the number of callers between their two critical sections, and the times at which
-- passes have started, the last one first.
pub record Flights : Type 0 where
  pub evictor : Evictor
  pub inside : ℕ
  pub starts : List ℕ

abbrev pub started : ℕ → Bool × Evictor → Flights → Flights
started marked (true, e) f = record {
  evictor = e;
  inside = suc f.inside;
  starts = marked ∷ f.starts;
}
started marked (false, e) f = record f { evictor = e }

-- A caller's first section, and its second once it is inside. Its second reading of the clock is
-- not before the first.
pub data Step (f : Flights) : Flights → Type 0 where
  call :
      (checked marked : ℕ)
      → checked ≤ marked
      → Step f (started marked (enter checked marked f.evictor) f)
  return : (n : ℕ) → f.inside ≡ suc n → Step f (record f { evictor = leave f.evictor; inside = n })

pub data Reach (f : Flights) : Flights → Type 0 where
  here : Reach f f
  next : {g h : Flights} → Reach f g → Step g h → Reach f h

-- Each start is at least a throttle after the one before it.
abbrev pub Spaced : ℕ → List ℕ → Type 0
Spaced throttle [] = Unit
Spaced throttle (t ∷ []) = Unit
Spaced throttle (t ∷ u ∷ rest) = (u + throttle ≤ t) × Spaced throttle (u ∷ rest)

abbrev first : List ℕ → Option ℕ
first [] = none
first (t ∷ rest) = some t

abbrev count_of : Bool → ℕ
count_of true = 1
count_of false = 0

record IsFlown (throttle : ℕ) (f : Flights) : Type 0 where
  same_throttle : f.evictor.throttle ≡ throttle
  counted : f.inside ≡ count_of f.evictor.running
  last_start : f.evictor.last_run ≡ first f.starts
  spaced : Spaced throttle f.starts

Spaced-cons :
    (throttle checked marked : ℕ) (starts : List ℕ)
    → Spaced throttle starts
    → too_soon throttle checked (first starts) ≡ false
    → checked ≤ marked
    → Spaced throttle (marked ∷ starts)
Spaced-cons throttle checked marked [] v soon order = tt
Spaced-cons throttle checked marked (u ∷ rest) v soon order = (ground arith, v)

-- The three ways through the first critical section.
module _ (checked marked : ℕ) (e : Evictor) where
  enter_busy : e.running ≡ true → enter checked marked e ≡ (false, e)
  unfolding enter
  enter_busy busy = rw busy

  enter_early :
      e.running ≡ false
      → too_soon e.throttle checked e.last_run ≡ true
      → enter checked marked e ≡ (false, e)
  unfolding enter
  enter_early idle early = rw (idle, early)

  enter_late :
      e.running ≡ false
      → too_soon e.throttle checked e.last_run ≡ false
      → enter checked marked e ≡ (true, record e { running = true; last_run = some marked })
  unfolding enter
  enter_late idle late = rw (idle, late)

call-IsFlown :
    (throttle checked marked : ℕ) (f : Flights)
    → checked ≤ marked
    → IsFlown throttle f
    → IsFlown throttle (started marked (enter checked marked f.evictor) f)
call-IsFlown throttle checked marked f order v = elim (Bool-cases f.evictor.running) [
  | inl busy ↦ rw (enter_busy checked marked f.evictor busy) v
  | inr idle ↦ elim (Bool-cases (too_soon f.evictor.throttle checked f.evictor.last_run)) [
    | inl early ↦ rw (enter_early checked marked f.evictor idle early) v
    | inr late ↦ rw (enter_late checked marked f.evictor idle late) (record {
      same_throttle = v.same_throttle;
      counted = ap suc (v.counted ∙ ap count_of idle);
      last_start = refl;
      spaced =
          Spaced-cons throttle checked marked f.starts v.spaced
            (rw (v.same_throttle, v.last_start) at late) order;
    })
  ]
]

one_inside : (n : ℕ) (b : Bool) → suc n ≡ count_of b → n ≡ 0
one_inside n b h = ground arith

Step-IsFlown : {f g : Flights} (throttle : ℕ) → Step f g → IsFlown throttle f → IsFlown throttle g
unfolding leave
Step-IsFlown throttle (call checked marked order) v = call-IsFlown throttle checked marked _ order v
Step-IsFlown {f} throttle (return n some_inside) v = record {
  same_throttle = v.same_throttle;
  counted = one_inside n f.evictor.running (sym some_inside ∙ v.counted);
  last_start = v.last_start;
  spaced = v.spaced;
}

Reach-IsFlown : {f g : Flights} (throttle : ℕ) → IsFlown throttle f → Reach f g → IsFlown throttle g
Reach-IsFlown throttle v here = v
Reach-IsFlown throttle v (next r st) = Step-IsFlown throttle st (Reach-IsFlown throttle v r)

-- An evictor that no one has called.
abbrev pub idle_evictor : ℕ → Flights
idle_evictor throttle = record {
  evictor = record { throttle = throttle; running = false; last_run = none };
  inside = 0;
  starts = [];
}

at_most_one : (b : Bool) → count_of b ≤ 1
at_most_one b = ground arith

-- However the callers interleave, at most one eviction pass runs at a time, and each pass starts at
-- least a throttle after the one before it.
pub one_at_a_time :
    (throttle : ℕ) (f : Flights)
    → Reach (idle_evictor throttle) f
    → (f.inside ≤ 1) × Spaced throttle f.starts
one_at_a_time throttle f r =
    let v =
      Reach-IsFlown throttle
        (record { same_throttle = refl; counted = refl; last_start = refl; spaced = tt }) r in
    (rw v.counted (at_most_one f.evictor.running), v.spaced)
