-- ===== src/Config/Addresses.antt =====
-- internal/config/config.go: how a listen address is taken apart.
use mathlib.Core.Path.{subst}
use kvp.Prelude.{
  ℕ, ◌≡◌, ◌≢◌, ◌↔◌, refl, ap, some_inj, true, false, ◌==◌, none, some, List, [], ◌∷◌, ◌++◌, arith,
  inl, inr, Bool-cases, Option-cases, ==_iff,
}
use kvp.Config.{split_last_colon, all_digits, with_port, split_host_port}

-- A port is a text of digits, at least one.
abbrev pub IsPort : List ℕ → Type 0
IsPort port = (all_digits port ≡ true) × (port ≢ [])

-- The two parts of an address, put together.
abbrev joined : List ℕ × List ℕ → List ℕ
joined p = p.0 ++ b':' ∷ p.1

split_last_colon-joins :
    (addr : List ℕ) (p : List ℕ × List ℕ) → split_last_colon addr ≡ some p → addr ≡ joined p
unfolding split_last_colon
split_last_colon-joins [] p h = cc h
split_last_colon-joins (c ∷ cs) p h = elim (Option-cases (split_last_colon cs)) [
  | inr found ↦
      subst (λ q. c ∷ cs ≡ joined q) (some_inj (rw found.1 at h))
        (ap (λ rest. c ∷ rest) (split_last_colon-joins cs found.0 found.1))
  | inl absent ↦ elim (Bool-cases (c == b':')) [
    | inl colon ↦
        subst (λ q. c ∷ cs ≡ joined q) (some_inj (rw (absent, colon) at h))
          (ap (λ k. k ∷ cs) ((==_iff c b':').0 colon))
    | inr other ↦ cc (rw (absent, other) at h)
  ]
]

first_digit :
    (c : ℕ) (cs : List ℕ)
    → all_digits (c ∷ cs) ≡ true
    → ((c == b':') ≡ false) × (all_digits cs ≡ true)
unfolding all_digits
first_digit c cs h = (ground arith, ground arith)

split_last_colon-digits : (port : List ℕ) → all_digits port ≡ true → split_last_colon port ≡ none
unfolding split_last_colon
split_last_colon-digits [] h = refl
split_last_colon-digits (c ∷ cs) h =
    let d = first_digit c cs h in rw (split_last_colon-digits cs d.1, split_last_colon, d.0)

split_last_colon-join :
    (host port : List ℕ)
    → all_digits port ≡ true
    → split_last_colon (host ++ b':' ∷ port) ≡ some (host, port)
unfolding split_last_colon
split_last_colon-join [] port h = rw (split_last_colon-digits port h)
split_last_colon-join (c ∷ cs) port h = rw (split_last_colon-join cs port h, split_last_colon)

with_port_lem :
    (host port : List ℕ) (p : List ℕ × List ℕ)
    → with_port host port ≡ some p
    → ((host, port) ≡ p) × (all_digits port ≡ true) × (port ≢ [])
with_port_lem host [] p h = cc h
with_port_lem host (c ∷ cs) p h = elim (Bool-cases (all_digits (c ∷ cs))) [
  | inl good ↦ (some_inj (rw good at h), good, λ e. cc e)
  | inr bad ↦ cc (rw bad at h)
]

with_port-IsPort : (host port : List ℕ) → IsPort port → with_port host port ≡ some (host, port)
with_port-IsPort host [] v = absurd (v.1 refl)
with_port-IsPort host (c ∷ cs) v = rw v.0

-- The parts of an address are taken apart exactly when it is a host, a colon and a port of digits,
-- at least one.
pub split_host_port_exact :
    (addr host port : List ℕ)
    → (split_host_port addr ≡ some (host, port)) ↔ ((addr ≡ host ++ b':' ∷ port) × IsPort port)
unfolding split_host_port
split_host_port_exact addr host port = (
  λ h. elim (Option-cases (split_last_colon addr)) [
    | inl absent ↦ cc (rw absent at h)
    | inr found ↦
        let w = with_port_lem found.0.0 found.0.1 (host, port) (rw found.1 at h) in
        subst (λ p. (addr ≡ joined p) × IsPort p.1) w.0
          (split_last_colon-joins addr found.0 found.1, (w.1, w.2))
  ],
  λ v. rw (v.0, split_last_colon-join host port v.1.0) (with_port-IsPort host port v.1),
)
