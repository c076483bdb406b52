-- ===== src/Queue/Threads/Family.antt =====
-- A family of threads after one of them has moved.
use telemetry_threat_engine.Base.{
  ℕ, ◌≡◌, ◌≢◌, sym, ap, ◌∙◌, Option, some, ◌==◌, Bool-cases, inl, inr, ==_iff, ==_refl,
}
use telemetry_threat_engine.Queue.Threads.{Pc, update}

pub update_self : {B : Type 0} (f : ℕ → B) (i : ℕ) (b : B) → update f i b i ≡ b
update_self f i b = rw (==_refl i)

pub update_other : {B : Type 0} (f : ℕ → B) (i : ℕ) (b : B) (j : ℕ) → i ≢ j → update f i b j ≡ f j
update_other f i b j ne = elim (Bool-cases (i == j)) [
  | inl same ↦ absurd (ne ((==_iff i j).0 same))
  | inr other ↦ rw other
]

-- A property of all entries, after a change of one.
pub update-all :
    {B : Type 0} (P : B → Type 0) (f : ℕ → B) (i : ℕ) (b : B) (j : ℕ)
    → P b
    → (i ≢ j → P (f j))
    → P (update f i b j)
update-all P f i b j new old = elim (Bool-cases (i == j)) [
  | inl same ↦ rw same new
  | inr other ↦ rw other (old (λ e. cc (other, (==_iff i j).1 e)))
]

-- What a thread holds is a ticket by `holds`, which is `writes` or `takes`.
module _ {A : Type 0} (holds : Pc A → Option ℕ) (pc : ℕ → Pc A) (i : ℕ) (p' : Pc A) where
  abbrev pub Holder : (ℕ → Pc A) → ℕ → Type 0
  Holder pc t = (j : ℕ) × (holds (pc j) ≡ some t)

  pub Holder-new : (t : ℕ) → holds p' ≡ some t → Holder (update pc i p') t
  Holder-new t e = (i, ap holds (update_self pc i p') ∙ e)

  -- The other threads keep what they hold.
  pub Holder-kept :
      (t : ℕ)
      → (holds (pc i) ≡ some t → holds p' ≡ some t)
      → Holder pc t
      → Holder (update pc i p') t
  Holder-kept t keep (j, e) = elim (Bool-cases (i == j)) [
    | inl same ↦ Holder-new t (keep (ap (λ k. holds (pc k)) ((==_iff i j).0 same) ∙ e))
    | inr other ↦ (j, rw other e)
  ]

  -- Two threads still hold different tickets, if the new one is nobody else's.
  pub one_holder-kept :
      ((j k t : ℕ) → holds (pc j) ≡ some t → holds (pc k) ≡ some t → j ≡ k)
      → ((j t : ℕ) → i ≢ j → holds p' ≡ some t → holds (pc j) ≢ some t)
      → (j k t : ℕ) → holds (update pc i p' j) ≡ some t
      → holds (update pc i p' k) ≡ some t
      → j ≡ k
  one_holder-kept one new j k t ej ek = elim (Bool-cases (i == j)) [
    | inl here ↦ elim (Bool-cases (i == k)) [
      | inl there ↦ sym ((==_iff i j).0 here) ∙ (==_iff i k).0 there
      | inr other ↦
          absurd (new k t (λ e. cc (other, (==_iff i k).1 e)) (rw here at ej) (rw other at ek))
    ]
    | inr other ↦ elim (Bool-cases (i == k)) [
      | inl there ↦
          absurd (new j t (λ e. cc (other, (==_iff i j).1 e)) (rw there at ek) (rw other at ej))
      | inr far ↦ one j k t (rw other at ej) (rw far at ek)
    ]
  ]
