-- ===== src/Telemetry/Ready.antt =====
-- internal/telemetry/telemetry.go: what a readiness answer says about the database.
use text.Mathlib.Text.{◌==◌ as same_text}
use mathlib.Core.Path.{subst}
use kvp.Prelude.{
  ◌∙◌, ℕ, ◌+◌, ◌<◌, Bool, true, false, ◌≡◌, ◌≢◌, sym, refl, ap, some, some_inj, List, [], ◌∷◌, ◌++◌,
  ltb, ltb→lt, ◌⊎◌, inl, inr, Bool-cases, Option-cases, arith,
}
use kvp.Assoc.{lookup}
use kvp.Telemetry.Health.{
  Health, new_health, set_draining, Probe, Reply, write_json, is_one, is_recent, ping_ok,
  answer_ready, readiness,
}

-- What happens to the registry: a request for readiness, or a call of SetDraining.
pub data Event : Type 0 where
  probed : Probe → Event
  drained : Bool → Event

module _ {S : Type 0} (ping : S → Bool × S) where
  abbrev pub kept : Reply × Health × S → Health × S
  kept (reply, h, s) = (h, s)

  abbrev pub step : Event → Health × S → Health × S
  step (probed r) (h, s) = kept (readiness ping r h s)
  step (drained v) (h, s) = (set_draining v h, s)

  abbrev pub run : List Event → Health × S → Health × S
  run [] st = st
  run (e ∷ es) st = run es (step e st)

  -- One of the requests pinged the database at the time `t`, and the ping succeeded.
  abbrev pub PingedAt : List Event → Health × S → ℕ → Type 0
  PingedAt es st t =
      (before after : List Event) × (r : Probe) × (es ≡ before ++ probed r ∷ after)
      × (r.marked_at ≡ t)
      × ((ping (run before st).1).0 ≡ true)

-- The value that SetDraining was called with last.
abbrev pub last_drain : Bool → List Event → Bool
last_drain v [] = v
last_drain v (probed r ∷ es) = last_drain v es
last_drain v (drained w ∷ es) = last_drain w es

module _ {S : Type 0} (ping : S → Bool × S) where
  -- Where a ping is remembered as good, it was so before, or the request has just made it.
  ping_ok-remembers :
      (full : Bool) (r : Probe) (h : Health) (s : S) (t : ℕ)
      → (ping_ok ping full r h s).1.last ≡ some t
      → (ping_ok ping full r h s).1.last_ok ≡ true
      → ((h.last ≡ some t) × (h.last_ok ≡ true)) ⊎ ((r.marked_at ≡ t) × ((ping s).0 ≡ true))
  unfolding ping_ok
  ping_ok-remembers true r h s t = λ e f. inl (e, f)
  ping_ok-remembers false r h s t = elim (Bool-cases (is_recent h.cache_ttl r.since_at h.last)) [
    | inl recent ↦ rw recent (λ e f. inl (e, f))
    | inr old ↦ rw old (λ e f. inr (some_inj e, f))
  ]

  -- What a good answer of `pingOK` rests on.
  ping_ok-true :
      (full : Bool) (r : Probe) (h : Health) (s : S)
      → (ping_ok ping full r h s).0 ≡ true
      → ((ping s).0 ≡ true)
        ⊎ ((t : ℕ) × (h.last ≡ some t) × (h.last_ok ≡ true) × (r.since_at < t + h.cache_ttl))
  unfolding ping_ok
  ping_ok-true true r h s = λ e. inl e
  ping_ok-true false r h s = elim (Option-cases h.last) [
    | inl never ↦ rw never (λ e. inl e)
    | inr last ↦ elim (Bool-cases (ltb r.since_at (last.0 + h.cache_ttl))) [
      | inl recent ↦
          rw (last.1, recent)
            (λ e. inr (last.0, refl, e, ltb→lt r.since_at (last.0 + h.cache_ttl) recent))
      | inr old ↦ rw (last.1, old) (λ e. inl e)
    ]
  ]

  abbrev get_full : Probe → Bool
  get_full r = is_one (lookup "full" r.query)

  answer_ready-kept : (p : Bool × Health × S) → kept ping (answer_ready ping p) ≡ (p.1, p.2)
  answer_ready-kept (true, h, s) = refl
  answer_ready-kept (false, h, s) = refl

  answer_ready-good : (p : Bool × Health × S) → (answer_ready ping p).0.status ≡ 200 → p.0 ≡ true
  unfolding write_json
  answer_ready-good (true, h, s) e = refl
  answer_ready-good (false, h, s) e = ground arith

  -- A request for readiness leaves the registry alone, or pings.
  readiness-cases :
      (r : Probe) (h : Health) (s : S)
      → ((kept ping (readiness ping r h s) ≡ (h, s)) × (readiness ping r h s).0.status ≢ 200)
        ⊎ ((h.draining ≡ false)
            × (readiness ping r h s ≡ answer_ready ping (ping_ok ping (get_full r) r h s)))
  unfolding readiness write_json
  readiness-cases r h s = elim (Bool-cases (same_text r.method "GET")) [
    | inr other ↦ rw other (inl (refl, λ e. ground arith))
    | inl get ↦ elim (Bool-cases h.draining) [
      | inl draining ↦ rw (get, draining) (inl (refl, λ e. ground arith))
      | inr up ↦ rw (get, up) (inr (refl, refl))
    ]
  ]

  -- A state of the registry that remembers a good ping at the time `t`.
  abbrev Good : ℕ → Health × S → Type 0
  Good t st = (st.0.last ≡ some t) × (st.0.last_ok ≡ true)

  step-Good :
      (e : Event) (es : List Event) (st : Health × S) (t : ℕ)
      → Good t (step ping e st)
      → Good t st ⊎ PingedAt ping (e ∷ es) st t
  unfolding set_draining
  step-Good (drained v) es (h, s) t g = inl g
  step-Good (probed r) es (h, s) t g = elim (readiness-cases r h s) [
    | inl idle ↦ inl (subst (Good t) idle.0 g)
    | inr asked ↦
        let after : kept ping (readiness ping r h s) ≡ (_, _) =
          ap (kept ping) asked.1 ∙ answer_ready-kept (ping_ok ping (get_full r) r h s) in
        let g' = subst (Good t) after g in
        elim (ping_ok-remembers (get_full r) r h s t g'.0 g'.1) [
          | inl before ↦ inl before
          | inr now ↦ inr ([], es, r, refl, now.0, now.1)
        ]
  ]

  run-Good :
      (es : List Event) (st : Health × S) (t : ℕ)
      → Good t (run ping es st)
      → Good t st ⊎ PingedAt ping es st t
  run-Good [] st t g = inl g
  run-Good (e ∷ es) st t g = elim (run-Good es (step ping e st) t g) [
    | inl at_step ↦ step-Good e es st t at_step
    | inr later ↦
        let (before, after, r, split, marked, ok) = later in
        inr (e ∷ before, after, r, ap (λ l. e ∷ l) split, marked, ok)
  ]

  ping_ok-keeps :
      (full : Bool) (r : Probe) (h : Health) (s : S)
      → ((ping_ok ping full r h s).1.draining ≡ h.draining)
        × ((ping_ok ping full r h s).1.cache_ttl ≡ h.cache_ttl)
  unfolding ping_ok
  ping_ok-keeps true r h s = (refl, refl)
  ping_ok-keeps false r h s = elim (Bool-cases (is_recent h.cache_ttl r.since_at h.last)) [
    | inl recent ↦ rw recent (refl, refl)
    | inr old ↦ rw old (refl, refl)
  ]

  abbrev Keeps : Health → Health × S → Type 0
  Keeps h st = (st.0.draining ≡ h.draining) × (st.0.cache_ttl ≡ h.cache_ttl)

  readiness-Keeps : (r : Probe) (h : Health) (s : S) → Keeps h (kept ping (readiness ping r h s))
  readiness-Keeps r h s = elim (readiness-cases r h s) [
    | inl idle ↦ subst (Keeps h) (sym idle.0) (refl, refl)
    | inr asked ↦
        subst (Keeps h)
          (sym (ap (kept ping) asked.1 ∙ answer_ready-kept (ping_ok ping (get_full r) r h s)))
          (ping_ok-keeps (get_full r) r h s)
  ]

  run-draining :
      (es : List Event) (st : Health × S)
      → (run ping es st).0.draining ≡ last_drain st.0.draining es
  unfolding set_draining
  run-draining [] st = refl
  run-draining (probed r ∷ es) (h, s) =
      run-draining es (kept ping (readiness ping r h s))
      ∙ ap (λ v. last_drain v es) (readiness-Keeps r h s).0
  run-draining (drained v ∷ es) (h, s) = run-draining es (set_draining v h, s)

  run-cache_ttl :
      (es : List Event) (st : Health × S) → (run ping es st).0.cache_ttl ≡ st.0.cache_ttl
  unfolding set_draining
  run-cache_ttl [] st = refl
  run-cache_ttl (probed r ∷ es) (h, s) =
      run-cache_ttl es (kept ping (readiness ping r h s)) ∙ (readiness-Keeps r h s).1
  run-cache_ttl (drained v ∷ es) (h, s) = run-cache_ttl es (set_draining v h, s)

  nothing_yet : (t : ℕ) (s : S) → ¬ Good t (new_health, s)
  unfolding new_health
  nothing_yet t s g = cc g.0

  -- A request for readiness is answered 200, after whatever requests and calls of SetDraining, only
  -- where SetDraining was not last called with true, and where the request pings the database with
  -- success, or a request before it did so less than a second ago by the clock.
  pub readiness_lem :
      (es : List Event) (s : S) (r : Probe)
      → (readiness ping r (run ping es (new_health, s)).0 (run ping es (new_health, s)).1).0.status
        ≡ 200
      → (last_drain false es ≡ false)
        × (((ping (run ping es (new_health, s)).1).0 ≡ true)
            ⊎ ((t : ℕ) × PingedAt ping es (new_health, s) t × (r.since_at < t + 1000000000)))
  readiness_lem es s r e =
      let st = run ping es (new_health, s) in
      let not_draining : st.0.draining ≡ last_drain false es =
        unfold new_health in run-draining es (new_health, s) in
      let ttl : st.0.cache_ttl ≡ 1000000000 =
        unfold new_health in run-cache_ttl es (new_health, s) in
      elim (readiness-cases r st.0 st.1) [
        | inl idle ↦ absurd (idle.1 e)
        | inr asked ↦ (
          sym not_draining ∙ asked.0,
          elim (ping_ok-true (get_full r) r st.0 st.1 (
              answer_ready-good (ping_ok ping (get_full r) r st.0 st.1)
                (ap (λ a. a.0.status) (sym asked.1) ∙ e))) [
                  | inl now ↦ inl now
                  | inr remembered ↦
                      elim (run-Good es (new_health, s) remembered.0 (remembered.1, remembered.2)) [
                        | inl fresh ↦ absurd (nothing_yet remembered.0 s fresh)
                        | inr pinged ↦ inr (
                          remembered.0,
                          pinged,
                          subst (λ k. r.since_at < remembered.0 + k) ttl remembered.3,
                        )
                      ]
                ],
        )
      ]
