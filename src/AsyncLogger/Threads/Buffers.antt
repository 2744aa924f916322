-- ===== src/AsyncLogger/Threads/Buffers.antt =====
-- The calls of the two buffers in the shared logger, by the contract of a bounded list.
use mathlib.Core.Path.{subst}
use app_simple_log.Prelude.{
  ℕ, suc, ◌+◌, ◌-◌, ◌≤◌, ◌≡◌, sym, ap, ◌∙◌, Bool, false, List, [], ◌∷◌, some, count_if,
  count_if-append, if◌then◌else◌, arith,
}
use app_simple_log.Fifo.{BoundedFifo, offer}

-- What an offer adds.
count_if-offer :
    {A : Type 0} (test : A → Bool) (cap : ℕ) (held : List A) (e : A)
    → count_if test (offer cap held e).1
      ≡ count_if test held + (if (offer cap held e).0 then (if test e then 1 else 0) else 0)
count_if-offer test cap held e = ground (arith, count_if-append test held (e ∷ []))

offer_refused :
    {A : Type 0} (cap : ℕ) (held : List A) (e : A)
    → (offer cap held e).0 ≡ false
    → (offer cap held e).1 ≡ held
offer_refused cap held e refused = ground arith

module _ {A Q : Type 0} (F : BoundedFifo A Q) where
  -- A push that has returned `b`.
  pub push_lem :
      (budget pushes : ℕ) (q q' : Q) (e : A) (b : Bool)
      → pushes + 1 ≤ budget
      → F.IsValid (budget - pushes) q
      → F.try_push q e ≡ some (b, q')
      → F.IsValid (budget - (pushes + 1)) q'
        × ((test : A → Bool)
            → count_if test (F.contents q')
              ≡ count_if test (F.contents q) + (if b then (if test e then 1 else 0) else 0))
        × (b ≡ false → F.contents q' ≡ F.contents q)
  push_lem budget pushes q q' e b le valid ran =
      let valid' : F.IsValid (suc (budget - (pushes + 1))) q =
        subst (λ n. F.IsValid n q) (omega arith) valid in
      let (q₁, run, holds, same, ok) = F.push_offers (budget - (pushes + 1)) q e valid' in
      let here : q₁ ≡ q' = cc in
      let said : (offer (F.capacity q) (F.contents q) e).0 ≡ b = cc in
      (
        subst (F.IsValid (budget - (pushes + 1))) here ok,
        λ test.
            ap (λ x. count_if test (F.contents x)) (sym here)
            ∙ ap (count_if test) holds
            ∙ count_if-offer test (F.capacity q) (F.contents q) e
            ∙ ap (λ x. count_if test (F.contents q) + (if x then (if test e then 1 else 0) else 0))
                said,
        λ refused.
            ap F.contents (sym here)
            ∙ holds
            ∙ offer_refused (F.capacity q) (F.contents q) e (said ∙ refused),
      )

  pub pop_lem :
      (n : ℕ) (q q' : Q) (es : List A)
      → F.IsValid n q
      → F.pop_all q ≡ some (es, q')
      → F.IsValid n q' × (F.contents q' ≡ []) × (F.contents q ≡ es)
  pop_lem n q q' es valid ran =
      let (q₁, run, empty, same, ok) = F.pop_drains n q valid in
      let here : q₁ ≡ q' = cc in (subst (F.IsValid n) here ok, ap F.contents (sym here) ∙ empty, cc)

  -- Fewer pushes are left to the buffer that does not take one.
  pub spare_lem :
      (budget pushes : ℕ) (q : Q)
      → pushes + 1 ≤ budget
      → F.IsValid (budget - pushes) q
      → F.IsValid (budget - (pushes + 1)) q
  spare_lem budget pushes q le valid =
      F.weaken (budget - (pushes + 1)) q (subst (λ n. F.IsValid n q) (omega arith) valid)
