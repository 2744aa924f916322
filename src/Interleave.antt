-- ===== src/Interleave.antt =====
-- Threads that share a memory: one step of one thread after another, in every order. A component
-- says what a thread's move is, and takes the states that its threads can reach from here.
use mathlib.Core.Path.{subst}
use app_simple_log.Prelude.{ℕ, suc, ◌+◌, ◌≡◌, refl, sym, update, arith}

-- The shared memory and where each thread stands.
pub record Threads (M P : Type 0) : Type 0 where
  pub mem : M
  pub pc : ℕ → P

module _ {M P : Type 0} (Move : ℕ → M → P → M → P → Type 0) where
  -- One thread moves.
  pub data Interleaved (s : Threads M P) : Threads M P → Type 0 where
    pick :
        (i : ℕ) {m : M} {p : P}
        → Move i s.mem (s.pc i) m p
        → Interleaved s (record { mem = m; pc = update s.pc i p })

  -- A thread moves from where it is known to stand.
  pub picked :
      (i : ℕ) {s : Threads M P} {m : M} {p q : P}
      → s.pc i ≡ p
      → Move i s.mem p m q
      → Interleaved s (record { mem = m; pc = update s.pc i q })
  picked i {s = s} {m = m} {q = q} here mv = pick i (subst (λ x. Move i s.mem x m q) (sym here) mv)

  pub data Reachable (initial : Threads M P) : Threads M P → Type 0 where
    start : Reachable initial initial
    later : {s t : Threads M P} → Reachable initial s → Interleaved s t → Reachable initial t

  -- `k` moves of one thread, while the others stand still.
  pub data Alone (i : ℕ) : ℕ → Threads M P → Threads M P → Type 0 where
    stop : {s : Threads M P} → Alone i 0 s s
    go :
        {k : ℕ} {s t : Threads M P} {m : M} {p : P}
        → Move i s.mem (s.pc i) m p
        → Alone i k (record { mem = m; pc = update s.pc i p }) t
        → Alone i (suc k) s t

  -- `k` moves of any threads.
  pub data Runs : ℕ → Threads M P → Threads M P → Type 0 where
    still : {s : Threads M P} → Runs 0 s s
    onward : {k : ℕ} {s t u : Threads M P} → Interleaved s t → Runs k t u → Runs (suc k) s u

  pub Alone-Runs : {i k : ℕ} {s t : Threads M P} → Alone i k s t → Runs k s t
  Alone-Runs stop = still
  Alone-Runs {i = i} (go mv rest) = onward (pick i mv) (Alone-Runs rest)

  pub Runs-append : {k l : ℕ} {s t u : Threads M P} → Runs k s t → Runs l t u → Runs (k + l) s u
  Runs-append {l = l} {s = s} {u = u} still second =
      subst (λ n. Runs n s u) {x = l} (omega arith) second
  Runs-append {l = l} {s = s} {u = u} (onward {k = k} st first) second =
      subst (λ n. Runs n s u) {x = suc (k + l)} (omega arith) (onward st (Runs-append first second))

  pub Reachable-Runs :
      {initial s t : Threads M P} {k : ℕ} → Reachable initial s → Runs k s t → Reachable initial t
  Reachable-Runs r still = r
  Reachable-Runs r (onward st rest) = Reachable-Runs (later r st) rest

-- The moves of one thread by itself: from its place and the memory to where it ends.
pub data Solo {M P : Type 0} (Move : M → P → M → P → Type 0) : M → P → M → P → Type 0 where
  done : {m : M} {p : P} → Solo Move m p m p
  next : {m m₁ m₂ : M} {p p₁ p₂ : P} → Move m p m₁ p₁ → Solo Move m₁ p₁ m₂ p₂ → Solo Move m p m₂ p₂

pub Solo-append :
    {M P : Type 0} {Move : M → P → M → P → Type 0} {m m₁ m₂ : M} {p p₁ p₂ : P}
    → Solo Move m p m₁ p₁
    → Solo Move m₁ p₁ m₂ p₂
    → Solo Move m p m₂ p₂
Solo-append done second = second
Solo-append (next mv first) second = next mv (Solo-append first second)

-- Where a thread has at most one move, a run of it that has begun goes on to where any other ends
-- that cannot go on.
module _ {M P : Type 0} {Move : M → P → M → P → Type 0}
    (one : (m m₁ m₂ : M) (p p₁ p₂ : P) → Move m p m₁ p₁ → Move m p m₂ p₂ → (m₁ ≡ m₂) × (p₁ ≡ p₂))
    (end : P) (over : (m m' : M) (p p' : P) → p ≡ end → ¬ (Move m p m' p')) where
  Solo-continue :
      {m m' m₁ : M} {p p₁ q : P}
      → q ≡ end
      → Move m p m₁ p₁
      → Solo Move m p m' q
      → Solo Move m₁ p₁ m' q
  Solo-continue ends mv done = absurd (over _ _ _ _ ends mv)
  Solo-continue {p₁ = p₁} {q = q} ends mv (next {m₁ = n} {m₂ = m'} {p₁ = o} mv' rest) =
      let (same_m, same_p) = one _ _ _ _ _ _ mv' mv in
      subst (λ x. Solo Move x p₁ m' q) same_m (subst (λ x. Solo Move n x m' q) same_p rest)

  pub Solo-follow :
      {m m' m₁ : M} {p p₁ : P} → Solo Move m p m₁ p₁ → Solo Move m p m' end → Solo Move m₁ p₁ m' end
  Solo-follow done whole = whole
  Solo-follow (next mv begun) whole = Solo-follow begun (Solo-continue refl mv whole)
